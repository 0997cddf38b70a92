-- ===== src/TcpConnection/Order/Progress.antt =====
-- A connection whose socket stays writable sends all that is pending, and then shuts down if asked to.
use adl_server.Base.{
  ℕ, zero, suc, ◌<◌, ◌≤◌, true, false, not, [], ◌∷◌, ◌++◌, Bytes, length, append-nil, take,
  length-drop, ◌==◌, Bool-cases, inl, inr, if◌then◌else◌, ◌≡◌, refl, sym, ap, ◌∙◌, Result, ok,
  fault, endless, ◌>>=◌, arith,
}
use adl_server.NetBuffer.{NetBuffer, readable, contents}
use adl_server.NetBuffer.Contents.{retrieve_lem, length-contents}
use adl_server.Channel.{is_writing}
use adl_server.Epoller.{disable_writing}
use adl_server.TcpConnection.{
  Connection, wrote, is_disconnecting, watch, complete, shutdown_write_in_loop, drained, written,
  handle_write,
}
use adl_server.TcpConnection.Order.{IsSettled, Step}
use adl_server.TcpConnection.Order.Steps.{watch-Alike, watch_disable, complete-Alike, true-false}
use adl_server.TcpConnection.Order.Fifo.{written-Step}

-- The loop dispatches EPOLLOUT while the channel asks for it; the system takes `accepted i r` bytes of
-- r at the i-th event.
unfoldable pub write_while_asked : (ℕ → ℕ → ℕ) → ℕ → ℕ → Connection → Result Connection
write_while_asked accepted zero i c = fault endless
write_while_asked accepted (suc fuel) i c =
    let again =
      handle_write (wrote (accepted i (readable c.output))) c
      >>= write_while_asked accepted fuel (suc i) in
    if is_writing c.channel then again else ok c

same_ok : {c d : Connection} → ok c ≡ ok d → c ≡ d
same_ok h = cc

-- An empty output shuts the connection down, if it was asked to.
drained-shut : (c : Connection) → is_disconnecting c.state ≡ true → (drained c).is_shut ≡ true
unfolding drained shutdown_write_in_loop
drained-shut c h =
    let same = watch-Alike disable_writing c in
    let (like, chan) = complete-Alike (watch disable_writing c) in
    let quiet : is_writing (complete (watch disable_writing c)).channel ≡ false =
      ap is_writing chan ∙ watch_disable c in
    let leaving : is_disconnecting (complete (watch disable_writing c)).state ≡ true =
      ap is_disconnecting (like.state ∙ same.state) ∙ h in
    rw (leaving, quiet) refl

drained-keeps : (c : Connection) → ((drained c).output ≡ c.output) × ((drained c).wire ≡ c.wire)
unfolding drained shutdown_write_in_loop
drained-keeps c =
    let same = watch-Alike disable_writing c in
    let (like, chan) = complete-Alike (watch disable_writing c) in
    let quiet : is_writing (complete (watch disable_writing c)).channel ≡ false =
      ap is_writing chan ∙ watch_disable c in
    elim (Bool-cases (is_disconnecting (complete (watch disable_writing c)).state)) [
      | inl y ↦ rw (y, quiet) (like.output ∙ same.output, like.wire ∙ same.wire)
      | inr m ↦ rw m (like.output ∙ same.output, like.wire ∙ same.wire)
    ]

zero_test : (n : ℕ) → n ≡ 0 → (n == 0) ≡ true
zero_test n h = ground (arith, h)

-- Where the write left the connection: with nothing pending it is shut down if it was asked to be.
abbrev pub Ends : Connection → Type 0
Ends d = readable d.output ≡ 0 → is_disconnecting d.state ≡ true → d.is_shut ≡ true

written-less :
    (n : ℕ) (c : Connection)
    → IsSettled c
    → is_writing c.channel ≡ true
    → suc n ≤ readable c.output
    → (d : Connection) × (written (wrote (suc n)) c ≡ ok d)
      × (d.state ≡ c.state)
      × Step c d []
      × (readable d.output < readable c.output)
      × Ends d
unfolding written
written-less n c s y g =
    let (d, e, state, step) = written-Step (wrote (suc n)) c s y g in
    let (out, f, v, cut) = (retrieve_lem c.output (suc n) s.valid).0 g in
    let mid : Connection = record c {
      output = out;
      wire = c.wire ++ take (suc n) (contents c.output);
    } in
    let less : readable out < readable c.output = omega (
      arith,
      g,
      length-contents out,
      ap (λ (t : Bytes). length t) cut,
      length-drop (suc n) (contents c.output),
      length-contents c.output,
    ) in
    let end : (if readable out == 0 then drained mid else mid) ≡ d = same_ok (rw f at e) in
    elim (Bool-cases (readable out == 0)) [
      | inl z ↦
          let here : drained mid ≡ d = rw z at end in
          let kept : d.output ≡ out =
            sym (ap (λ (x : Connection). x.output) here) ∙ (drained-keeps mid).0 in
          (
            d,
            e,
            state,
            step,
            rw kept less,
            λ nil leaving.
                sym (ap (λ (x : Connection). x.is_shut) here)
                ∙ drained-shut mid (ap is_disconnecting (sym state) ∙ leaving),
          )
      | inr m ↦
          let here : mid ≡ d = rw m at end in
          let kept : d.output ≡ out = sym (ap (λ (x : Connection). x.output) here) in
          let some_left : (readable d.output == 0) ≡ false = rw kept m in
          (
            d,
            e,
            state,
            step,
            rw kept less,
            λ nil leaving.
                absurd (true-false (sym (zero_test (readable d.output) nil) ∙ some_left)),
          )
    ]

empty_contents : (b : NetBuffer) → readable b ≡ 0 → contents b ≡ []
empty_contents b h = none_left (contents b) (length-contents b ∙ h)
  where
    none_left : (xs : Bytes) → length xs ≡ 0 → xs ≡ []
    none_left [] e = refl
    none_left (x ∷ xs) e = absurd (omega (arith, e))

pending : (c : Connection) → IsSettled c → is_writing c.channel ≡ true → 0 < readable c.output
pending c s y = let asks = sym y ∙ s.asks in go (readable c.output) asks
  where
    go : (n : ℕ) → true ≡ not (n == 0) → 0 < n
    go n h = ground (arith, h)

quiet-empty : (c : Connection) → IsSettled c → is_writing c.channel ≡ false → readable c.output ≡ 0
quiet-empty c s y = let asks = sym y ∙ s.asks in go (readable c.output) asks
  where
    go : (n : ℕ) → false ≡ not (n == 0) → n ≡ 0
    go n h = ground (arith, h)

stopped :
    (accepted : ℕ → ℕ → ℕ) (fuel i : ℕ) (c : Connection)
    → 0 < fuel
    → is_writing c.channel ≡ false
    → write_while_asked accepted fuel i c ≡ ok c
unfolding write_while_asked
stopped accepted zero i c h m = absurd (omega (arith, h))
stopped accepted (suc fuel) i c h m = rw m refl

successor : (k : ℕ) → 0 < k → (n : ℕ) × (k ≡ suc n)
successor zero h = absurd (omega (arith, h))
successor (suc n) h = (n, refl)

-- One dispatch.
dispatched :
    (accepted : ℕ → ℕ → ℕ) (fuel i n : ℕ) (c d : Connection)
    → is_writing c.channel ≡ true
    → accepted i (readable c.output) ≡ suc n
    → written (wrote (suc n)) c ≡ ok d
    → write_while_asked accepted (suc fuel) i c ≡ write_while_asked accepted fuel (suc i) d
unfolding write_while_asked handle_write
dispatched accepted fuel i n c d y k e = rw (y, k, e) refl

-- A connection with bytes pending, and a socket that is writable again and again and takes at least one
-- byte each time: no more dispatches are needed than bytes are pending; in the end the system has taken
-- all of them, in order, nothing is pending, EPOLLOUT is not asked for any more, and where the
-- connection was being shut down its write half is shut.
pub write_while_asked-drains :
    (accepted : ℕ → ℕ → ℕ)
    → ((i r : ℕ) → 0 < r → (0 < accepted i r) × (accepted i r ≤ r))
    → (fuel i : ℕ) (c : Connection) → IsSettled c
    → is_writing c.channel ≡ true
    → readable c.output < fuel
    → (d : Connection) × (write_while_asked accepted fuel i c ≡ ok d)
      × (d.wire ≡ c.wire ++ contents c.output)
      × (readable d.output ≡ 0)
      × (is_writing d.channel ≡ false)
      × (is_disconnecting c.state ≡ true → d.is_shut ≡ true)
write_while_asked-drains accepted takes zero i c s y h = absurd (omega (arith, h))
write_while_asked-drains accepted takes (suc fuel) i c s y h =
    let (low, high) = takes i (readable c.output) (pending c s y) in
    let (n, k) = successor (accepted i (readable c.output)) low in
    let (d, e, state, step, less, ends) = written-less n c s y (omega (arith, high, k)) in
    let next = dispatched accepted fuel i n c d y k e in
    let flow : d.wire ++ contents d.output ≡ c.wire ++ contents c.output =
      step.flow ∙ append-nil (c.wire ++ contents c.output) in
    elim (Bool-cases (is_writing d.channel)) [
      | inl more ↦
          let (last, f, wire, nil, quiet, shut) =
            write_while_asked-drains accepted takes fuel (suc i) d step.settled more
              (omega (arith, h, less)) in
          (last, next ∙ f, wire ∙ flow, nil, quiet, λ g. shut (ap is_disconnecting state ∙ g))
      | inr m ↦
          let nil = quiet-empty d step.settled m in
          (
            d,
            next ∙ stopped accepted fuel (suc i) d (omega (arith, h, less)) m,
            sym (append-nil d.wire)
                ∙ ap (λ (z : Bytes). d.wire ++ z) (sym (empty_contents d.output nil))
                ∙ flow,
            nil,
            m,
            λ g. ends nil (ap is_disconnecting state ∙ g),
          )
    ]
