-- ===== src/Base/Int.antt =====
-- Signed integers, where the program uses a negative result. `negsuc n` is -(n + 1).
use Prim.Native.Nat.{ℕ}

pub data ℤ : Type 0 where
  pos : ℕ → ℤ
  negsuc : ℕ → ℤ

-- What a failed call returns.
abbrev pub minus_one : ℤ
minus_one = negsuc 0
