-- ===== src/Coro/Rounds.antt =====
-- src/net/coro/co_epoll.cpp: the rounds of `run`, and the length of its vector of events. The k-th
-- epoll_wait, for a number of events, gives a number of events or fails; `loop` throws where it
-- fails, and `run` goes on. `cnt` has no value before the first call that succeeds.
use adl_server.Base.{
  ℕ, zero, suc, ◌+◌, ◌*◌, ◌/◌, ◌≤◌, ◌==◌, ltb, leb, if◌then◌else◌, Option, none, some, Result, ok,
  fault, out_of_bounds, uncaught, ◌>>=◌, ◌≡◌, refl, ap, ◌∙◌, false, le→leb, Bool-cases, inl, inr,
  arith,
}

-- `handled` counts the events of all rounds.
pub record Poller : Type 0 where
  pub cnt : Option ℕ
  pub size : ℕ
  pub handled : ℕ

abbrev pub new_poller : Poller
new_poller = record { cnt = none; size = 16; handled = 0 }

-- `cnt = loop(...)`, where an exception leaves `cnt` as it was.
unfoldable pub take_count : Option ℕ → Option ℕ → Option ℕ
take_count (some n) old = some n
take_count none old = old

-- The two tests at the end of a round, the second one with the new size.
unfoldable pub widen : ℕ → ℕ → ℕ
widen n size = if leb size n then n * 2 else size

unfoldable pub narrow : ℕ → ℕ → ℕ
narrow n size = if leb n (size / 5) then n / 2 else size

-- The loop over `epoll_events[i]` and the tests: an index from `size` on is out of bounds.
unfoldable pub handle : Option ℕ → Poller → Result Poller
handle none p = fault uncaught
handle (some n) p =
    if ltb p.size n
    then fault out_of_bounds
    else ok (record { cnt = some n; size = narrow n (widen n p.size); handled = p.handled + n })

-- Few events do not widen the vector, and the narrowing leaves it empty.
widen_few : (n size : ℕ) → n ≤ size / 5 → widen n size ≡ size
unfolding widen
widen_few n size few = elim (Bool-cases (leb size n)) [
  | inl y ↦ rw y (ground (arith, y, few))
  | inr m ↦ rw m refl
]

narrow_few : (n size : ℕ) → n ≤ 1 → n ≤ size / 5 → narrow n size ≡ 0
unfolding narrow
narrow_few n size one few = let e = le→leb n (size / 5) few in rw e (omega (arith, one))

handle_few :
    (n : ℕ) (p : Poller)
    → n ≤ 1
    → n ≤ p.size / 5
    → handle (some n) p ≡ ok (record { cnt = some n; size = 0; handled = p.handled + n })
unfolding handle
handle_few n p one few =
    let inside : ltb p.size n ≡ false = ground (arith, few) in
    rw (inside, widen_few n p.size few, narrow_few n p.size one few) refl

module _ (wait : ℕ → ℕ → Option ℕ) where
  unfoldable pub run_round : ℕ → Poller → Result Poller
  run_round k p = handle (take_count (wait k p.size) p.cnt) p

  -- The first rounds of `run`, the first of them with the k-th call.
  unfoldable pub run_rounds : ℕ → ℕ → Poller → Result Poller
  run_rounds zero k p = ok p
  run_rounds (suc n) k p = do q ← run_round k p; run_rounds n (suc k) q

  -- epoll_wait refuses room for no event.
  abbrev pub NeedsRoom : Type 0
  NeedsRoom = (k : ℕ) → wait k 0 ≡ none

  abbrev empty_poller : ℕ → ℕ → Poller
  empty_poller n handled = record { cnt = some n; size = 0; handled = handled }

  empty_round :
      NeedsRoom
      → (k handled : ℕ) → run_round k (empty_poller 0 handled) ≡ ok (empty_poller 0 handled)
  unfolding run_round take_count handle widen narrow
  empty_round room k handled =
      let e = room k in rw e (ap (λ r. ok (empty_poller 0 r)) (omega arith))

  empty_rounds :
      NeedsRoom
      → (n k handled : ℕ) → run_rounds n k (empty_poller 0 handled) ≡ ok (empty_poller 0 handled)
  unfolding run_rounds
  empty_rounds room zero k handled = refl
  empty_rounds room (suc n) k handled =
      let e = empty_round room k handled in rw e (empty_rounds room n (suc k) handled)

  first_round :
      (k n : ℕ) (p : Poller)
      → wait k p.size ≡ some n
      → n ≤ 1
      → n ≤ p.size / 5
      → run_round k p ≡ ok (empty_poller n (p.handled + n))
  unfolding run_round take_count
  first_round k n p e few small = rw e (handle_few n p few small)

  out_of_room :
      NeedsRoom → (k handled : ℕ) → run_round k (empty_poller 1 handled) ≡ fault out_of_bounds
  unfolding run_round take_count handle
  out_of_room room k handled = let e = room k in rw e refl

  -- A round with one event or none, where there is room for five or more, and any number of rounds
  -- behind the next one. Where there was none, each later epoll_wait is given no room and fails, so that
  -- no event is handled again; where there was one, the next round reads the vector of events
  -- out of bounds.
  pub starves :
      (k n more : ℕ) (p : Poller)
      → NeedsRoom
      → wait k p.size ≡ some n
      → n ≤ 1
      → 5 ≤ p.size
      → run_rounds (suc (suc more)) k p ≡ (
          if n == 0
          then ok (record { cnt = some 0; size = 0; handled = p.handled })
          else fault out_of_bounds)
  unfolding run_rounds
  starves k zero more p room e few wide =
      let first = first_round k 0 p e (omega arith) (omega arith) in
      rw first (
        empty_rounds room (suc more) (suc k) (p.handled + 0)
        ∙ ap (λ r. ok (empty_poller 0 r)) (omega arith))
  starves k (suc zero) more p room e few wide =
      let first = first_round k 1 p e (omega arith) (omega arith) in
      rw first (
        ap (λ (r : Result Poller). r >>= λ q. run_rounds more (suc (suc k)) q)
          (out_of_room room (suc k) (p.handled + 1)))
  starves k (suc (suc n)) more p room e few wide = absurd (omega arith)
