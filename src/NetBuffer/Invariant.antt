-- ===== src/NetBuffer/Invariant.antt =====
-- The indices of a buffer stay in order under every operation, and `checkCapcity` makes room.
use native.Mathlib.Nat.{pow-suc, sub-zero}
use adl_server.Base.{
  ℕ, zero, suc, ◌+◌, ◌-◌, ◌*◌, ◌^◌, ◌≤◌, ◌<◌, ◌≡◌, refl, ap, inl, inr, Memory, slice, move_left,
  slice_eq, lt→ltb, arith, leb, ltb, Bool-cases, ok, true,
}
use adl_server.NetBuffer.{
  NetBuffer, init, int_limit, readable, writeable, grow, grow_fuel, expansion, compact, contents,
}

pub record IsValid (b : NetBuffer) : Type 0 where
  pub ordered : b.r ≤ b.w
  pub within : b.w ≤ b.alloc
  pub positive : 0 < b.alloc
  pub representable : b.alloc < int_limit

pub init-IsValid :
    (block : Memory) (size : ℕ) → 0 < size → size < int_limit → IsValid (init block size)
unfolding init
init-IsValid block size p q = omega arith

-- What the loop returns has room, and is no smaller than what it began with.
grow_bounds :
    (fuel alloc w len : ℕ) {new : ℕ}
    → alloc < int_limit
    → grow fuel alloc w len ≡ ok new
    → (alloc ≤ new) × (new < int_limit) × (len < new - w)
unfolding grow
grow_bounds zero alloc w len h e = ground arith
grow_bounds (suc fuel) alloc w len {new} h e =
    ground (arith, grow_bounds fuel (alloc * 2) w len {new = new})

-- A buffer whose contents and the new bytes stay below 2^30 can grow to hold them.
grow_total :
    (fuel alloc w len : ℕ)
    → 0 < alloc
    → alloc < int_limit
    → 2 * (w + len) < int_limit
    → w + len < alloc * 2 ^ fuel
    → (new : ℕ) × (grow fuel alloc w len ≡ ok new)
unfolding grow
grow_total zero alloc w len p a s h = (alloc, ground arith)
grow_total (suc fuel) alloc w len p a s h = elim (Bool-cases (leb (alloc - w) len)) [
  | inl full ↦
      let smaller : ltb (alloc * 2) int_limit ≡ true = ground arith in
      let (new, e) = grow_total fuel (alloc * 2) w len (omega arith) (ground arith) s enough in
      (new, rw (full, smaller, grow) e)
  | inr room ↦ (alloc, rw (room, grow))
]
  where
    enough : w + len < alloc * 2 * 2 ^ fuel
    enough = omega (arith, ap (λ (t : ℕ). alloc * t) (pow-suc 2 fuel))

-- The buffer `c` is `b` with the same contents and more than `len` bytes of room.
pub record HasRoom (b c : NetBuffer) (len : ℕ) : Type 0 where
  pub valid : IsValid c
  pub same : contents c ≡ contents b
  pub room : len < writeable c

compact_slice : (m : Memory) (from n : ℕ) → slice (move_left m from n) 0 n ≡ slice m from n
compact_slice m from n = slice_eq (move_left m from n) m 0 from n (λ k h. moved k h)
  where
    moved : (k : ℕ) → k < n → move_left m from n (0 + k) ≡ m (from + k)
    moved k h = let e : 0 + k ≡ k = omega arith in rw e (unfold move_left in rw (lt→ltb k n h))

pub compact-IsValid : (b : NetBuffer) → IsValid b → IsValid (compact b)
unfolding compact
compact-IsValid b v = ground arith

-- Afterwards the readable bytes stand at the start.
pub compact-readable : (b : NetBuffer) → (compact b).w ≡ readable b
unfolding compact
compact-readable b = ground arith

pub contents-compact : (b : NetBuffer) → contents (compact b) ≡ contents b
unfolding compact contents
contents-compact b = elim (Bool-cases (ltb 0 b.r)) [
  | inl moves ↦ rw (moves, sub-zero) (compact_slice b.cells b.r (readable b))
  | inr stays ↦ rw stays
]

contents_of_grown : (b : NetBuffer) (alloc : ℕ) → contents (record b { alloc = alloc }) ≡ contents b
unfolding contents
contents_of_grown b alloc = refl

pub expansion_total :
    (b : NetBuffer) (len : ℕ)
    → IsValid b
    → 2 * (b.w + len) < int_limit
    → (c : NetBuffer) × (expansion b len ≡ ok c) × HasRoom b c len
unfolding expansion
expansion_total b len v h =
    let (new, e) =
      grow_total grow_fuel b.alloc b.w len v.positive v.representable h (ground (arith, v)) in
    let bounds = grow_bounds grow_fuel b.alloc b.w len {new = new} v.representable e in
    (
      record b { alloc = new },
      rw e,
      record { valid = omega (arith, bounds); same = contents_of_grown b new; room = bounds.2 },
    )
