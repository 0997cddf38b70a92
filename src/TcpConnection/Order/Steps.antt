-- ===== src/TcpConnection/Order/Steps.antt =====
-- Every action on the sending side of a connection keeps the order of what was sent.
use adl_server.Base.{
  le→leb, ℕ, zero, suc, ◌+◌, ◌-◌, ◌*◌, ◌<◌, true, false, ◌||◌, [], ◌∷◌, ◌++◌, Bytes, length, slice,
  take, drop, take-append-drop, length-drop, ◌==◌, Bool-cases, ◌≡◌, ◌≢◌, refl, length-append, ap,
  sym, ◌∙◌, inl, inr, append-nil, append_assoc, ok, arith,
}
use adl_server.NetBuffer.{NetBuffer, readable, contents, int_limit}
use adl_server.NetBuffer.Contents.{append_total, length-contents}
use adl_server.Channel.{
  Events, none_event, is_reading, set_writing, Channel, Status, init, listen, deleted, not_listen,
  is_writing, no_event,
}
use adl_server.Epoller.{
  Epoller, Operation, operate, with_events, update_channel, update_by, enable_writing,
  disable_writing, disable_all,
}
use adl_server.TcpConnection.{
  Connection, WriteOutcome, wrote, would_block, broken, other_error, is_connected, watch, complete,
  want_write, buffer_rest, write_through,
}
use adl_server.TcpConnection.Order.{FitsIn, IsSettled, Step}

update_channel-events : (c : Channel) (e : Epoller) → (update_channel c e).0.events ≡ c.events
unfolding update_channel update_by
update_channel-events c e = go c.status
  where
    go : (s : Status) → (update_by s c e).0.events ≡ c.events
    go init = refl
    go deleted = refl
    go listen = elim (Bool-cases (no_event c.events)) [ inl y ↦ rw y | inr n ↦ rw n ]
    go not_listen = elim (Bool-cases (no_event c.events)) [ inl y ↦ rw y | inr n ↦ rw n ]

-- `d` is `c` but for its channel, its poller and its notices.
pub record Alike (c d : Connection) : Type 0 where
  pub output : d.output ≡ c.output
  pub wire : d.wire ≡ c.wire
  pub state : d.state ≡ c.state
  pub is_shut : d.is_shut ≡ c.is_shut

pub watch-Alike : (op : Operation) (c : Connection) → Alike c (watch op c)
unfolding watch
watch-Alike op c = record { output = refl; wire = refl; state = refl; is_shut = refl }

watch_enable : (c : Connection) → is_writing (watch enable_writing c).channel ≡ true
unfolding watch operate with_events is_writing
watch_enable c =
    let asked = record c.channel { events = set_writing true c.channel.events } in
    ap (λ (ev : Events). ev.output) (update_channel-events asked c.epoller)

pub watch_disable : (c : Connection) → is_writing (watch disable_writing c).channel ≡ false
unfolding watch operate with_events is_writing
watch_disable c =
    let asked = record c.channel { events = set_writing false c.channel.events } in
    ap (λ (ev : Events). ev.output) (update_channel-events asked c.epoller)

pub complete-Alike : (c : Connection) → Alike c (complete c) × ((complete c).channel ≡ c.channel)
unfolding complete
complete-Alike c = elim (Bool-cases c.has_write_complete) [
  | inl y ↦ rw y (record { output = refl; wire = refl; state = refl; is_shut = refl }, refl)
  | inr n ↦ rw n (record { output = refl; wire = refl; state = refl; is_shut = refl }, refl)
]

pub want_write_lem :
    (c : Connection) → Alike c (want_write c) × (is_writing (want_write c).channel ≡ true)
unfolding want_write
want_write_lem c = elim (Bool-cases (is_writing c.channel)) [
  | inl y ↦ rw y (record { output = refl; wire = refl; state = refl; is_shut = refl }, y)
  | inr n ↦ rw n (watch-Alike enable_writing c, watch_enable c)
]

pub contents_nil : (b : NetBuffer) → readable b ≡ 0 → contents b ≡ []
unfolding contents slice
contents_nil b h = rw h

readable_nil : (b : NetBuffer) → readable b ≡ 0 → (readable b == 0) ≡ true
readable_nil b h = ground arith

pub settled-open : (c : Connection) → IsSettled c → is_connected c.state ≡ true → c.is_shut ≡ false
settled-open c s h = elim (Bool-cases c.is_shut) [ inl y ↦ let k = (s.shut y).0 in cc | inr n ↦ n ]

pub true-false : true ≢ false
true-false h = cc

-- Bytes that go to the output buffer.
pub buffer_rest-Step :
    (rest : Bytes) (c : Connection)
    → IsSettled c
    → c.is_shut ≡ false
    → 2 * (readable c.output + length rest) < int_limit
    → (d : Connection) × (buffer_rest rest c ≡ ok d) × (d.state ≡ c.state) × Step c d rest
unfolding buffer_rest
buffer_rest-Step [] c s opened small =
    (c, refl, refl, record { settled = s; flow = sym (append-nil _); bound = omega arith })
buffer_rest-Step (x ∷ xs) c s opened small =
    let (out, e, v, more) = append_total c.output (x ∷ xs) s.valid small in
    let mid = record c { output = out } in
    let (same, on) = want_write_lem mid in
    let sum : readable out ≡ readable c.output + length (x ∷ xs) =
      sym (length-contents out)
      ∙ ap (λ (t : Bytes). length t) more
      ∙ length-append (contents c.output) (x ∷ xs)
      ∙ ap (λ (t : ℕ). t + length (x ∷ xs)) (length-contents c.output) in
    let full : (readable out == 0) ≡ false = ground (arith, sum) in
    (
      want_write mid,
      rw e,
      same.state,
      record {
        settled = record {
          valid = rw (same.output) v;
          asks = rw (on, same.output, full);
          shut = λ h. absurd (true-false (sym h ∙ same.is_shut ∙ opened));
        };
        flow =
            rw (same.wire, same.output, more)
              (sym (append_assoc c.wire (contents c.output) (x ∷ xs)));
        bound = rw (same.output) (omega (arith, sum));
      },
    )

done-nil : (n : ℕ) (msg : Bytes) → (length msg - n == 0) ≡ true → drop n msg ≡ []
done-nil n [] h = drop_nil n
  where
    drop_nil : (k : ℕ) → drop {A = ℕ} k [] ≡ []
    drop_nil zero = refl
    drop_nil (suc k) = refl
done-nil zero (x ∷ xs) h = ground (arith, h)
done-nil (suc n) (x ∷ xs) h = done-nil n xs (ground (arith, h))

-- A message that is written to the socket at once, as far as it goes.
pub write_through-Step :
    (o : WriteOutcome) (msg : Bytes) (c : Connection)
    → IsSettled c
    → c.is_shut ≡ false
    → readable c.output ≡ 0
    → FitsIn (length msg) o
    → 2 * (readable c.output + length msg) < int_limit
    → (d : Connection) × (write_through o msg c ≡ ok d) × (d.state ≡ c.state) × Step c d msg
unfolding write_through
write_through-Step would_block msg c s opened nil f small = buffer_rest-Step msg c s opened small
write_through-Step other_error msg c s opened nil f small = buffer_rest-Step msg c s opened small
write_through-Step broken msg c s opened nil f small = absurd f
write_through-Step (wrote n) msg c s opened nil f small = elim (Bool-cases (length msg - n == 0)) [
  | inl y ↦
      let (same, chan) = complete-Alike mid in
      (
        complete mid,
        rw (le→leb n (length msg) f, y),
        same.state,
        record {
          settled = record {
            valid = rw (same.output) s.valid;
            asks = rw (chan, same.output) s.asks;
            shut = λ h. absurd (true-false (sym h ∙ same.is_shut ∙ opened));
          };
          flow = rw (same.wire, same.output) (joined (done-nil n msg y));
          bound = rw (same.output) (omega arith);
        },
      )
  | inr m ↦
      let (d, e, st, step) =
        buffer_rest-Step (drop n msg) mid (record { valid = s.valid; asks = s.asks; shut = s.shut })
          opened (omega (arith, small, length-drop n msg)) in
      (
        d,
        rw (le→leb n (length msg) f, m) e,
        st,
        record {
          settled = step.settled;
          flow = step.flow ∙ whole;
          bound = omega (arith, step.bound, length-drop n msg);
        },
      )
]
  where
    mid : Connection
    mid = record c { wire = c.wire ++ take n msg }

    whole :
        ((c.wire ++ take n msg) ++ contents c.output) ++ drop n msg
        ≡ (c.wire ++ contents c.output) ++ msg
    whole =
        rw (contents_nil c.output nil, append-nil (c.wire ++ take n msg), append-nil c.wire)
          (append_assoc c.wire (take n msg) (drop n msg)
            ∙ ap (λ (t : Bytes). c.wire ++ t) (take-append-drop n msg))

    joined :
        drop n msg ≡ []
        → (c.wire ++ take n msg) ++ contents c.output ≡ (c.wire ++ contents c.output) ++ msg
    joined h =
        sym (append-nil _)
        ∙ ap (λ (t : Bytes). ((c.wire ++ take n msg) ++ contents c.output) ++ t) (sym h)
        ∙ whole

-- `disableAll` leaves no interest in reading or writing.
pub watch_none :
    (c : Connection)
    → (is_writing (watch disable_all c).channel ≡ false)
      × (is_reading (watch disable_all c).channel ≡ false)
unfolding watch operate with_events is_writing is_reading
watch_none c =
    let asked = record c.channel { events = none_event } in
    let same = update_channel-events asked c.epoller in
    (
      ap (λ (ev : Events). ev.output) same,
      ap (λ (ev : Events). ev.input || ev.rdhup || ev.pri) same,
    )
