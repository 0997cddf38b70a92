-- ===== src/NetBuffer.antt =====
-- src/net/netBuffer.h: the growing byte buffer of a connection (the class of the `#else` branch, which
-- is the one that is compiled). `cells` is the block `buf_` of `alloc_` bytes: past `w` it holds any
-- bytes, and `realloc` shows more of the same function. An allocation that fails is not modelled.
-- Differences of indices are exact where r ≤ w ≤ alloc, which NetBuffer/Invariant shows to be kept.
pub mod Invariant
pub mod Contents
pub mod Refinement
pub mod ReadFd
mod Examples
use adl_server.Base.{
  ℕ, zero, suc, ◌+◌, ◌-◌, ◌*◌, ◌^◌, Bool, true, false, List, [], ◌∷◌, Bytes, length, Memory, slice,
  store, move_left, ltb, leb, if◌then◌else◌, Result, ok, fault, check, overflow, out_of_bounds,
  assert_failed, endless, ◌>>=◌, ◌>>◌,
}

pub record NetBuffer : Type 0 where
  pub cells : Memory
  pub r : ℕ
  pub w : ℕ
  pub alloc : ℕ

-- Above INT_MAX.
abbrev pub int_limit : ℕ
int_limit = 2 ^ 31

-- `netBuffer(int initSize = 4096)`; malloc returns a block that holds any bytes.
unfoldable pub init : Memory → ℕ → NetBuffer
init block size = record { cells = block; r = 0; w = 0; alloc = size }

abbrev pub default_size : ℕ
default_size = 4096

abbrev pub readable : NetBuffer → ℕ
readable b = b.w - b.r

abbrev pub writeable : NetBuffer → ℕ
writeable b = b.alloc - b.w

-- The bytes at `peek()`, with those behind the readable part.
abbrev pub peek : NetBuffer → Memory
peek b i = b.cells (b.r + i)

-- The loop of `expansion`, which ends with the new `alloc_`. An int that overflows is a fault, so
-- that 32 rounds are enough for every positive `alloc_` (NetBuffer/Invariant).
unfoldable pub grow : ℕ → ℕ → ℕ → ℕ → Result ℕ
grow zero alloc w len = if leb (alloc - w) len then fault endless else ok alloc
grow (suc fuel) alloc w len = elim (leb (alloc - w) len) [
  | true ↦ elim (ltb (alloc * 2) int_limit) [
    | true ↦ grow fuel (alloc * 2) w len
    | false ↦ fault overflow
  ]
  | false ↦ ok alloc
]

abbrev pub grow_fuel : ℕ
grow_fuel = 32

unfoldable pub expansion : NetBuffer → ℕ → Result NetBuffer
expansion b len = do alloc ← grow grow_fuel b.alloc b.w len; ok (record b { alloc = alloc })

-- `memmove(buf_, buf_ + r_, w_ - r_)` where `checkCanMoveToLeft()`.
unfoldable pub compact : NetBuffer → NetBuffer
compact b =
    if ltb 0 b.r
    then record b { cells = move_left b.cells b.r (readable b); w = readable b; r = 0 }
    else b

unfoldable pub check_capacity : NetBuffer → ℕ → Result NetBuffer
check_capacity b len =
    if leb (writeable b) len
    then (let c = compact b in if leb (writeable c) len then expansion c len else ok c)
    else ok b

-- The loop `buf_[w_++] = buf[i]`.
unfoldable pub copy_in : NetBuffer → Bytes → Result NetBuffer
copy_in b [] = ok b
copy_in b (x ∷ xs) = do
  check (ltb b.w b.alloc) out_of_bounds
  copy_in (record b { cells = store b.cells b.w x; w = b.w + 1 }) xs

unfoldable pub append : NetBuffer → Bytes → Result NetBuffer
append b bytes = do c ← check_capacity b (length bytes); copy_in c bytes

unfoldable pub retrieve : NetBuffer → ℕ → Result NetBuffer
retrieve b len = do check (leb len (readable b)) assert_failed; ok (record b { r = b.r + len })

unfoldable pub retrieve_as_string : NetBuffer → ℕ → Result (Bytes × NetBuffer)
retrieve_as_string b len = do
  check (leb len (readable b)) assert_failed
  c ← retrieve b len
  ok (slice b.cells b.r len, c)

-- `peekInt()`: the four bytes of the int, in the order of memory.
unfoldable pub peek_int : NetBuffer → Result Bytes
peek_int b = do check (leb 4 (readable b)) assert_failed; ok (slice b.cells b.r 4)

-- `readInt()`.
unfoldable pub read_int : NetBuffer → Result (Bytes × NetBuffer)
read_int b = do i ← peek_int b; c ← retrieve b 4; ok (i, c)

unfoldable pub retrieve_all_as_string : NetBuffer → Result (Bytes × NetBuffer)
retrieve_all_as_string b = retrieve_as_string b (readable b)

-- `retrieveAll()`, and `reset()`, which does the same.
pub retrieve_all : NetBuffer → NetBuffer
retrieve_all b = record b { r = 0; w = 0 }

-- What a client of the buffer sees: the bytes that are still to be read.
unfoldable pub contents : NetBuffer → Bytes
contents b = slice b.cells b.r (readable b)
