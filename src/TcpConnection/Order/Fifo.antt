-- ===== src/TcpConnection/Order/Fifo.antt =====
-- The bytes that a connection sends leave it in order, none lost and none twice.
use adl_server.Base.{
  zero, suc, ◌+◌, ◌*◌, ◌≤◌, ◌<◌, Bool, true, false, not, List, [], ◌∷◌, ◌++◌, Bytes, length, take,
  take-append-drop, length-drop, length-append, ◌==◌, Bool-cases, ◌≡◌, refl, ap, sym, ◌∙◌, inl, inr,
  append-nil, append_assoc, ok, arith,
}
use adl_server.NetBuffer.{readable, contents, int_limit}
use adl_server.NetBuffer.Invariant.{IsValid}
use adl_server.NetBuffer.Contents.{retrieve_lem, length-contents}
use adl_server.Channel.{is_writing}
use adl_server.Epoller.{disable_writing}
use adl_server.TcpConnection.{
  Connection, WriteOutcome, wrote, would_block, broken, other_error, State, is_connected,
  is_disconnected, is_disconnecting, connected, disconnected, connecting, disconnecting, watch,
  complete, can_write, send_in_loop, send, shutdown_write_in_loop, shutdown, drained, written,
  handle_write,
}
use adl_server.TcpConnection.Order.{
  Action, sends, writable, shuts, act, act_all, offered, FitsIn, Serves, IsSettled, Step,
}
use adl_server.TcpConnection.Order.Steps.{
  watch-Alike, watch_disable, complete-Alike, settled-open, true-false, buffer_rest-Step,
  write_through-Step,
}

same-Step : (c : Connection) → IsSettled c → Step c c []
same-Step c s = record { settled = s; flow = sym (append-nil _); bound = omega arith }

pub connected-alive : (s : State) → is_connected s ≡ true → is_disconnected s ≡ false
connected-alive connected h = refl
connected-alive disconnected h = cc
connected-alive connecting h = refl
connected-alive disconnecting h = refl

leaving-closed : (s : State) → is_disconnecting s ≡ true → is_connected s ≡ false
leaving-closed connected h = cc
leaving-closed disconnected h = refl
leaving-closed connecting h = refl
leaving-closed disconnecting h = refl

-- `send` on a connection that is up.
pub send-Step :
    (o : WriteOutcome) (msg : Bytes) (c : Connection)
    → IsSettled c
    → is_connected c.state ≡ true
    → FitsIn (length msg) o
    → 2 * (readable c.output + length msg) < int_limit
    → (d : Connection) × (send o msg c ≡ ok d) × (d.state ≡ c.state) × Step c d msg
unfolding send send_in_loop can_write
send-Step o msg c s up f small = elim (Bool-cases (is_writing c.channel)) [
  | inl y ↦
      rw (up, connected-alive c.state up, y) (buffer_rest-Step msg c s (settled-open c s up) small)
  | inr n ↦
      let empty : (readable c.output == 0) ≡ true = not_false _ (sym s.asks ∙ n) in
      rw (up, connected-alive c.state up, n, empty)
        (write_through-Step o msg c s (settled-open c s up) (ground (arith, empty)) f small)
]
  where
    not_false : (b : Bool) → not b ≡ false → b ≡ true
    not_false true h = refl
    not_false false h = cc

drained_lem :
    (c : Connection)
    → IsValid c.output
    → readable c.output ≡ 0
    → c.is_shut ≡ false
    → IsSettled (drained c)
      × ((drained c).output ≡ c.output)
      × ((drained c).wire ≡ c.wire)
      × ((drained c).state ≡ c.state)
unfolding drained shutdown_write_in_loop
drained_lem c v nil opened =
    let off = watch_disable c in
    let same = watch-Alike disable_writing c in
    let (like, chan) = complete-Alike (watch disable_writing c) in
    let quiet : is_writing (complete (watch disable_writing c)).channel ≡ false =
      ap is_writing chan ∙ off in
    let out = like.output ∙ same.output in
    let state = like.state ∙ same.state in
    let shut_same = like.is_shut ∙ same.is_shut in
    let empty : (readable c.output == 0) ≡ true = ground (arith, nil) in
    elim (Bool-cases (is_disconnecting (complete (watch disable_writing c)).state)) [
      | inl y ↦
          rw (y, quiet)
            (
              record {
                valid = rw out v;
                asks = rw (quiet, out, empty);
                shut = λ h. (leaving-closed _ y, ap readable out ∙ nil);
              },
              out,
              like.wire ∙ same.wire,
              state,
            )
      | inr n ↦ rw n (
        record {
          valid = rw out v;
          asks = rw (quiet, out, empty);
          shut = λ h. absurd (true-false (sym h ∙ shut_same ∙ opened));
        },
        out,
        like.wire ∙ same.wire,
        state,
      )
    ]

writing-open : (c : Connection) → IsSettled c → is_writing c.channel ≡ true → c.is_shut ≡ false
writing-open c s y = elim (Bool-cases c.is_shut) [
  | inl k ↦
      let empty : (readable c.output == 0) ≡ true = ground (arith, (s.shut k).1) in
      absurd (true-false (sym y ∙ s.asks ∙ ap not empty))
  | inr n ↦ n
]

-- The write half stays open while bytes are pending.
pub written-Step :
    (o : WriteOutcome) (c : Connection)
    → IsSettled c
    → is_writing c.channel ≡ true
    → FitsIn (readable c.output) o
    → (d : Connection) × (written o c ≡ ok d) × (d.state ≡ c.state) × Step c d []
unfolding written
written-Step would_block c s y g = (c, refl, refl, same-Step c s)
written-Step broken c s y g = absurd g
written-Step other_error c s y g = (c, refl, refl, same-Step c s)
written-Step (wrote zero) c s y g = (c, refl, refl, same-Step c s)
written-Step (wrote (suc n)) c s y g =
    let (out, e, v, cut) = (retrieve_lem c.output (suc n) s.valid).0 g in
    let mid = record c { output = out; wire = c.wire ++ take (suc n) (contents c.output) } in
    let flow : mid.wire ++ contents out ≡ (c.wire ++ contents c.output) ++ [] =
      ap (λ (t : Bytes). mid.wire ++ t) cut
      ∙ append_assoc c.wire _ _
      ∙ ap (λ (t : Bytes). c.wire ++ t) (take-append-drop (suc n) (contents c.output))
      ∙ sym (append-nil _) in
    let less : readable out ≤ readable c.output = omega (
      arith,
      length-contents out,
      ap (λ (t : Bytes). length t) cut,
      length-drop (suc n) (contents c.output),
      length-contents c.output,
    ) in
    elim (Bool-cases (readable out == 0)) [
      | inl z ↦
          let (settled, same, wire, state) =
            drained_lem mid v (ground (arith, z)) (writing-open c s y) in
          (
            drained mid,
            rw (e, z),
            state,
            record {
              settled = settled;
              flow = rw (wire, same) flow;
              bound = rw same (omega (arith, less));
            },
          )
      | inr m ↦ (
        mid,
        rw (e, m),
        refl,
        record {
          settled = record {
            valid = v;
            asks = rw (m) y;
            shut = λ h. absurd (true-false (sym h ∙ writing-open c s y));
          };
          flow = flow;
          bound = omega (arith, less);
        },
      )
    ]

handle_write-Step :
    (o : WriteOutcome) (c : Connection)
    → IsSettled c
    → FitsIn (readable c.output) o
    → (d : Connection) × (handle_write o c ≡ ok d) × (d.state ≡ c.state) × Step c d []
unfolding handle_write
handle_write-Step o c s f = elim (Bool-cases (is_writing c.channel)) [
  | inr n ↦ rw n (c, refl, refl, same-Step c s)
  | inl y ↦ rw y (written-Step o c s y f)
]

shutdown-Step :
    (c : Connection)
    → IsSettled c
    → Step c (shutdown c) [] × (is_connected (shutdown c).state ≡ false)
unfolding shutdown shutdown_write_in_loop
shutdown-Step c s = elim (Bool-cases (is_connected c.state)) [
  | inr n ↦ rw n (same-Step c s, n)
  | inl up ↦ elim (Bool-cases (is_writing c.channel)) [
    | inl y ↦
        rw (up, y)
          (
            record {
              settled = record {
                valid = s.valid;
                asks = s.asks;
                shut = λ h. absurd (true-false (sym h ∙ settled-open c s up));
              };
              flow = sym (append-nil _);
              bound = omega arith;
            },
            refl,
          )
    | inr n ↦
        rw (up, n)
          (
            record {
              settled = record {
                valid = s.valid;
                asks = s.asks;
                shut = λ h. (refl, drained_already (sym n ∙ s.asks));
              };
              flow = sym (append-nil _);
              bound = omega arith;
            },
            refl,
          )
  ]
]
  where
    drained_already : false ≡ not (readable c.output == 0) → readable c.output ≡ 0
    drained_already h = ground (arith, h)

pub Step-chain : (c d e : Connection) (x y : Bytes) → Step c d x → Step d e y → Step c e (x ++ y)
Step-chain c d e x y a b = record {
  settled = b.settled;
  flow =
      b.flow ∙ ap (λ (t : Bytes). t ++ y) a.flow ∙ append_assoc (c.wire ++ contents c.output) x y;
  bound = omega (arith, a.bound, b.bound, length-append x y);
}

-- The rest of the actions, after a step that succeeded.
module _ (c : Connection) where
  Runs : List Action → Bytes → Type 0
  Runs actions extra = (d : Connection) × (act_all actions c ≡ ok d) × Step c d extra

after-act :
    (a : Action) (rest : List Action) (c d : Connection) (x y : Bytes)
    → act a c ≡ ok d
    → Step c d x
    → Runs d rest y
    → Runs c (a ∷ rest) (x ++ y)
unfolding Runs act_all
after-act a rest c d x y e step (end, f, more) = (end, rw e f, Step-chain c d end x y step more)

act_all-Runs :
    (actions : List Action) (up : Bool) (c : Connection)
    → is_connected c.state ≡ up
    → IsSettled c
    → Serves c actions
    → 2 * (readable c.output + length (offered up actions)) < int_limit
    → Runs c actions (offered up actions)
unfolding offered act
act_all-Runs [] up c h s serves small = unfold Runs act_all in (c, refl, same-Step c s)
act_all-Runs (shuts ∷ rest) up c h s serves small =
    let (step, closed) = shutdown-Step c s in
    let more =
      act_all-Runs rest false (shutdown c) closed step.settled (serves.1 _ refl)
        (omega (arith, step.bound, small)) in
    after-act shuts rest c (shutdown c) [] (offered false rest) refl step more
act_all-Runs (writable o ∷ rest) up c h s serves small =
    let (d, e, same, step) = handle_write-Step o c s serves.0 in
    let more =
      act_all-Runs rest up d (ap is_connected same ∙ h) step.settled (serves.1 d e)
        (omega (arith, step.bound, small)) in
    after-act (writable o) rest c d [] (offered up rest) e step more
act_all-Runs (sends msg o ∷ rest) true c h s serves small =
    let sum = length-append msg (offered true rest) in
    let (d, e, same, step) = send-Step o msg c s h serves.0 (omega (arith, sum, small)) in
    let more =
      act_all-Runs rest true d (ap is_connected same ∙ h) step.settled (serves.1 d e)
        (omega (arith, step.bound, sum, small)) in
    after-act (sends msg o) rest c d msg (offered true rest) e step more
act_all-Runs (sends msg o ∷ rest) false c h s serves small =
    let e : send o msg c ≡ ok c = unfold send in rw h in
    let more = act_all-Runs rest false c h s (serves.1 c e) small in
    after-act (sends msg o) rest c c [] (offered false rest) e (same-Step c s) more

-- Any sequence of sends, writable sockets and shutdowns on a connection, with messages below 2^30
-- bytes in all and as long as the peer has not closed its end: no action fails, and the bytes that
-- the system took followed by those that are pending are what they were before, followed by the
-- messages sent before the first shutdown, in order. EPOLLOUT is asked for just while bytes are
-- pending, and the write half is shut down only when none are.
pub act_all_lem :
    (actions : List Action) (c : Connection)
    → IsSettled c
    → Serves c actions
    → 2 * (readable c.output + length (offered (is_connected c.state) actions)) < int_limit
    → (d : Connection) × (act_all actions c ≡ ok d)
      × Step c d (offered (is_connected c.state) actions)
unfolding Runs
act_all_lem actions c s serves small =
    act_all-Runs actions (is_connected c.state) c refl s serves small
