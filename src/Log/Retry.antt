-- ===== src/Log/Retry.antt =====
-- src/log/fileUtil.cpp: the wrappers of system calls. The result of the k-th attempt is a parameter.
use adl_server.Base.{
  ℕ, zero, suc, ◌+◌, ◌-◌, ◌^◌, ◌/◌, ◌%◌, ◌<◌, ◌≤◌, Bool, true, false, ◌&&◌, ◌||◌, List, [], ◌∷◌,
  Bytes, ◌==◌, Bool-cases, inl, inr, if◌then◌else◌, Option, none, some, Result, ok, fault, endless,
  ◌>>=◌, ℤ, pos, minus_one, ◌≡◌, refl, sym, ap, ◌∙◌, arith,
}

-- A call gives a count or a descriptor, or fails with an errno.
pub data Outcome : Type 0 where
  done : ℕ → Outcome
  failed : ℕ → Outcome

abbrev pub eintr : ℕ
eintr = 4

abbrev pub eagain : ℕ
eagain = 11

-- A ssize_t that is stored in a size_t.
unfoldable pub as_size : Outcome → ℕ
as_size (done n) = n
as_size (failed e) = 2 ^ 64 - 1

-- The test `nr < 0` of a size_t.
abbrev pub is_negative : ℕ → Bool
is_negative nr = false

unfoldable pub has_errno : ℕ → Outcome → Bool
has_errno e (done n) = false
has_errno e (failed n) = n == e

-- What the messages on stderr speak of.
pub data Message : Type 0 where
  cannot_open_for_both cannot_open_for_writing cannot_open_for_reading dup_failed fdopen_failed :
      Message

unfoldable pub open_message : ℕ → Message
open_message oflag =
    if oflag / 2 % 2 == 1
    then cannot_open_for_both
    else (if oflag % 2 == 1 then cannot_open_for_writing else cannot_open_for_reading)

-- A descriptor, or -1 with a message.
unfoldable pub opened : ℕ → Outcome → ℤ × List Message
opened oflag (done fd) = (pos fd, [])
opened oflag (failed e) = (minus_one, open_message oflag ∷ [])

-- The byte of a text at a place is the given one.
unfoldable pub is_at : ℕ → ℕ → Bytes → Bool
is_at i c [] = false
is_at zero c (b ∷ bs) = b == c
is_at (suc i) c (b ∷ bs) = is_at i c bs

unfoldable pub mode_message : Bytes → Message
mode_message mode =
    if is_at 1 b'+' mode
    then cannot_open_for_both
    else (if is_at 0 b'w' mode || is_at 0 b'a' mode
        then cannot_open_for_writing
        else cannot_open_for_reading)

-- The stream that is opened in the end, with the messages on the way.
unfoldable pub fopened : Bytes → Outcome → Result (ℕ × List Message) → Result (ℕ × List Message)
fopened mode (done fp) again = ok (fp, [])
fopened mode (failed e) again =
    if e == eintr then again else do (fp, later) ← again; ok (fp, mode_message mode ∷ later)

module _ (calls : ℕ → Outcome) where
  -- The loop has no way out.
  unfoldable pub xread : ℕ → ℕ → Result ℕ
  xread zero k = fault endless
  xread (suc fuel) k =
      let again = xread fuel (suc k) in
      if is_negative (as_size (calls k)) && has_errno eintr (calls k) then again else again

  -- The loops of `xwrite`, `xfwrite` and `xfwrite_unlocked`.
  unfoldable pub xwrite : ℕ → ℕ → Result ℕ
  xwrite zero k = fault endless
  xwrite (suc fuel) k =
      let again = xwrite fuel (suc k) in
      let nr = as_size (calls k) in
      if is_negative nr && has_errno eintr (calls k) then again else ok nr

  unfoldable pub xpread : ℕ → ℕ → Result ℕ
  xpread zero k = fault endless
  xpread (suc fuel) k =
      let again = xpread fuel (suc k) in
      let nr = as_size (calls k) in
      if is_negative nr && (has_errno eagain (calls k) || has_errno eintr (calls k))
      then again
      else ok nr

  unfoldable pub xopen : ℕ → ℕ → ℕ → Result (ℤ × List Message)
  xopen oflag zero k = fault endless
  xopen oflag (suc fuel) k =
      let again = xopen oflag fuel (suc k) in
      if has_errno eintr (calls k) then again else ok (opened oflag (calls k))

  unfoldable pub xfopen : Bytes → ℕ → ℕ → Result (ℕ × List Message)
  xfopen mode zero k = fault endless
  xfopen mode (suc fuel) k = fopened mode (calls k) (xfopen mode fuel (suc k))

unfoldable pub xdup : Outcome → ℤ × List Message
xdup (done fd) = (pos fd, [])
xdup (failed e) = (minus_one, dup_failed ∷ [])

unfoldable pub xfdopen : Option ℕ → Option ℕ × List Message
xfdopen none = (none, fdopen_failed ∷ [])
xfdopen (some stream) = (some stream, [])

-- No size is below 0: `xread` never returns, whatever its calls give, and the others return what the
-- first call gives, also where it was interrupted: then it is 2^64 - 1.
pub sizes_never_retried :
    (calls : ℕ → Outcome) (fuel k : ℕ)
    → (xread calls fuel k ≡ fault endless)
      × (xwrite calls (suc fuel) k ≡ ok (as_size (calls k)))
      × (xpread calls (suc fuel) k ≡ ok (as_size (calls k)))
unfolding xread xwrite xpread
sizes_never_retried calls zero k = (refl, refl, refl)
sizes_never_retried calls (suc fuel) k = ((sizes_never_retried calls fuel (suc k)).0, refl, refl)

-- The messages of n calls that failed, of which those that were interrupted give none.
unfoldable pub complaints : Message → (ℕ → Outcome) → ℕ → ℕ → List Message
complaints m calls k zero = []
complaints m calls k (suc n) =
    let later = complaints m calls (suc k) n in
    if has_errno eintr (calls k) then later else m ∷ later

-- The calls from k on, n of them.
abbrev pub AllFail : (ℕ → Outcome) → ℕ → ℕ → Type 0
AllFail calls k zero = Unit {0}
AllFail calls k (suc n) = ((e : ℕ) × (calls k ≡ failed e)) × AllFail calls (suc k) n

-- `fopen` fails n times and then succeeds: `xfopen` gives the stream, with as many rounds, whatever
-- the errors were, and a message for each that is not an interrupt.
pub xfopen_after_failures :
    (mode : Bytes) (calls : ℕ → Outcome) (n k fp fuel : ℕ)
    → AllFail calls k n
    → calls (n + k) ≡ done fp
    → n < fuel
    → xfopen calls mode fuel k ≡ ok (fp, complaints (mode_message mode) calls k n)
unfolding xfopen fopened complaints has_errno
xfopen_after_failures mode calls n k fp zero all last h = absurd (omega (arith, h))
xfopen_after_failures mode calls zero k fp (suc fuel) all last h =
    let first : calls k ≡ done fp = ap calls (omega arith) ∙ last in rw first refl
xfopen_after_failures mode calls (suc n) k fp (suc fuel) ((e, fails), all) last h =
    let at : n + suc k ≡ suc n + k = omega arith in
    let later =
      xfopen_after_failures mode calls n (suc k) fp fuel all (ap calls at ∙ last)
        (omega (arith, h)) in
    elim (Bool-cases (e == eintr)) [
      | inl y ↦ rw (fails, y) later
      | inr m ↦ rw (fails, m, later) refl
    ]

interrupted : has_errno eintr (failed eintr) ≡ true
unfolding has_errno
interrupted = refl

-- `open` is interrupted n times and then gives another result: `xopen` gives that result, a
-- descriptor or -1 with one message.
pub xopen_after_interrupts :
    (oflag : ℕ) (calls : ℕ → Outcome) (n k fuel : ℕ)
    → ((i : ℕ) → k ≤ i → i < n + k → calls i ≡ failed eintr)
    → has_errno eintr (calls (n + k)) ≡ false
    → n < fuel
    → xopen calls oflag fuel k ≡ ok (opened oflag (calls (n + k)))
unfolding xopen
xopen_after_interrupts oflag calls n k zero all last h = absurd (omega (arith, h))
xopen_after_interrupts oflag calls zero k (suc fuel) all last h =
    let at : 0 + k ≡ k = omega arith in
    let first : has_errno eintr (calls k) ≡ false =
      ap (λ (i : ℕ). has_errno eintr (calls i)) (sym at) ∙ last in
    rw at (rw first refl)
xopen_after_interrupts oflag calls (suc n) k (suc fuel) all last h =
    let at : n + suc k ≡ suc n + k = omega arith in
    let later =
      xopen_after_interrupts oflag calls n (suc k) fuel
        (λ i a b. all i (omega (arith, a)) (omega (arith, b)))
        (ap (λ (i : ℕ). has_errno eintr (calls i)) at ∙ last) (omega (arith, h)) in
    let stop : has_errno eintr (calls k) ≡ true =
      rw (all k (omega arith) (omega arith)) interrupted in
    rw stop (later ∙ ap (λ (i : ℕ). ok (opened oflag (calls i))) at)
