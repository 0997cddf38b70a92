-- ===== src/Base/Block.antt =====
-- A block of memory as a function from offsets to bytes. What lies past the part that was written is
-- whatever the function holds there, so nothing is assumed of fresh or stale bytes.
use Prim.Native.Nat.{ℕ, zero, suc, ◌+◌, ◌-◌, ◌≤◌, ◌<◌}
use mathlib.Core.Path.{◌≡◌, refl, ap}
use mathlib.Core.List.{[], ◌∷◌, ◌++◌}
use native.Mathlib.Omega.{arith}
use native.Mathlib.Nat.{add-zero}
use adl_server.Base.Tests.{◌==◌, if◌then◌else◌, ltb}
use adl_server.Base.Lists.{Bytes, length, take, drop}

abbrev pub Memory : Type 0
Memory = ℕ → ℕ

-- The `n` bytes from offset `i` on, as `string(buf + i, n)` copies them.
unfoldable pub slice : Memory → ℕ → ℕ → Bytes
slice m i zero = []
slice m i (suc n) = m i ∷ slice m (i + 1) n

-- `buf[i] = v`.
unfoldable pub store : Memory → ℕ → ℕ → Memory
store m i v j = if j == i then v else m j

-- `memmove(buf, buf + from, n)`.
unfoldable pub move_left : Memory → ℕ → ℕ → Memory
move_left m from n j = if ltb j n then m (from + j) else m j

pub length-slice : (m : Memory) (i n : ℕ) → length (slice m i n) ≡ n
unfolding slice
length-slice m i zero = refl
length-slice m i (suc n) = ap suc (length-slice m (i + 1) n)

pub slice-append : (m : Memory) (i a b : ℕ) → slice m i (a + b) ≡ slice m i a ++ slice m (i + a) b
unfolding slice
slice-append m i zero b =
    let e : 0 + b ≡ b = omega arith in let f : i + 0 ≡ i = omega arith in rw (e, f)
slice-append m i (suc a) b =
    let e : suc a + b ≡ suc (a + b) = omega arith in
    let f : i + suc a ≡ i + 1 + a = omega arith in
    rw (e, f) (ap (◌∷◌ (m i)) (slice-append m (i + 1) a b))

-- Two slices agree if their bytes do.
pub slice_eq :
    (m m' : Memory) (i j n : ℕ)
    → ((k : ℕ) → k < n → m (i + k) ≡ m' (j + k))
    → slice m i n ≡ slice m' j n
unfolding slice
slice_eq m m' i j zero h = refl
slice_eq m m' i j (suc n) h =
    let here : m i ≡ m' j = simp add-zero at (h 0 (omega arith)) in
    let rest = slice_eq m m' (i + 1) (j + 1) n (λ k lt. later k (h (suc k) (omega arith))) in cc
  where
    later : (k : ℕ) → m (i + suc k) ≡ m' (j + suc k) → m (i + 1 + k) ≡ m' (j + 1 + k)
    later k e =
        let p : i + 1 + k ≡ i + suc k = omega arith in
        let q : j + 1 + k ≡ j + suc k = omega arith in rw (p, q) e

pub drop-slice : (m : Memory) (i n k : ℕ) → drop k (slice m i n) ≡ slice m (i + k) (n - k)
unfolding slice
drop-slice m i n zero = rw (add-zero) (ap (slice m i) (omega arith))
drop-slice m i zero (suc k) = let e : 0 - suc k ≡ 0 = omega arith in rw e
drop-slice m i (suc n) (suc k) =
    let e : suc n - suc k ≡ n - k = omega arith in
    let f : i + suc k ≡ i + 1 + k = omega arith in rw (e, f) (drop-slice m (i + 1) n k)

pub take-slice : (m : Memory) (i n k : ℕ) → k ≤ n → take k (slice m i n) ≡ slice m i k
unfolding slice
take-slice m i n zero h = refl
take-slice m i zero (suc k) h = absurd (omega arith)
take-slice m i (suc n) (suc k) h = ap (◌∷◌ (m i)) (take-slice m (i + 1) n k (omega arith))

-- A block that begins with given bytes, for examples.
abbrev pub load : Bytes → Memory
load [] i = 0
load (b ∷ bs) zero = b
load (b ∷ bs) (suc i) = load bs i
