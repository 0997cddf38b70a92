-- ===== src/NetBuffer/ReadFd.antt =====
-- src/net/netBuffer.cpp: `readFd`, which reads a descriptor until it would block. What each system
-- call returns is an argument, the list of outcomes in order; `received []` is a result of 0.
pub mod Total
pub mod Offsets
use adl_server.Base.{
  ℕ, suc, ◌+◌, ◌-◌, ◌*◌, ◌≤◌, Bool, true, false, List, [], ◌∷◌, ◌++◌, Bytes, length, ltb, leb,
  if◌then◌else◌, ◌≡◌, Option, none, some, Result, ok, fault, endless, ◌>>=◌, ℤ, pos, minus_one,
}
use adl_server.NetBuffer.{NetBuffer, writeable, copy_in, check_capacity}

pub data ReadOutcome : Type 0 where
  received : Bytes → ReadOutcome
  interrupted would_block : ReadOutcome
  failed : ℕ → ReadOutcome

-- The system calls made: `read(fd, buf, count)` and `pread(fd, buf, count, offset)`.
pub data Request : Type 0 where
  read : ℕ → Request
  pread : ℕ → ℕ → Request

-- `ret` with what the two out parameters were set to.
pub record FdResult : Type 0 where
  pub ret : ℤ
  pub saved_errno : Option ℕ
  pub closed : Bool
  pub buffer : NetBuffer
  pub requests : List Request

-- After a read of some bytes: `w_ += getSize`, and `writeable() <= 0.2 * alloc_` asks for room.
unfoldable pub take_in : NetBuffer → Bytes → Result NetBuffer
take_in b bytes = do
  c ← copy_in b bytes
  if leb (5 * writeable c) c.alloc then check_capacity c 4096 else ok c

-- `at` is `sendFileOffset + getSize`, the offset of the next `pread`; a negative `getSize` is -1.
unfoldable pub request : NetBuffer → ℕ → ℕ → Request
request b offset at = if ltb 0 offset then pread (writeable b) at else read (writeable b)

unfoldable pub logged : Request → Result FdResult → Result FdResult
logged q m = do res ← m; ok (record res { requests = q ∷ res.requests })

abbrev stop : NetBuffer → ℤ → Option ℕ → Bool → Result FdResult
stop b ret errno closed =
    ok (record { ret = ret; saved_errno = errno; closed = closed; buffer = b; requests = [] })

unfoldable pub read_loop : NetBuffer → ℕ → ℕ → ℕ → List ReadOutcome → Result FdResult
read_loop b offset at all_size [] = fault endless
read_loop b offset at all_size (interrupted ∷ env) =
    logged (request b offset at) (read_loop b offset (offset - 1) all_size env)
read_loop b offset at all_size (would_block ∷ env) =
    logged (request b offset at) (stop b (pos all_size) none false)
read_loop b offset at all_size (failed errno ∷ env) =
    logged (request b offset at) (stop b minus_one (some errno) false)
read_loop b offset at all_size (received [] ∷ env) =
    logged (request b offset at) (stop b (pos 0) none true)
read_loop b offset at all_size (received (x ∷ xs) ∷ env) = logged (request b offset at) (do
  c ← take_in b (x ∷ xs)
  read_loop c offset (offset + length (x ∷ xs)) (all_size + length (x ∷ xs)) env)

-- `readFd(fd, &savedErrno, &writeClosed, sendFileOffset)`.
unfoldable pub read_fd : NetBuffer → ℕ → List ReadOutcome → Result FdResult
read_fd b offset env = read_loop b offset offset 0 env

-- The bytes that the calls delivered, up to the one that ends the loop.
abbrev pub delivered : List ReadOutcome → Bytes
delivered [] = []
delivered (interrupted ∷ env) = delivered env
delivered (would_block ∷ env) = []
delivered (failed errno ∷ env) = []
delivered (received [] ∷ env) = []
delivered (received (x ∷ xs) ∷ env) = x ∷ (xs ++ delivered env)

-- How the loop ends: what `readFd` returns after `n` bytes, the errno and the flag.
abbrev pub ending : ℕ → List ReadOutcome → ℤ × Option ℕ × Bool
ending n [] = (minus_one, none, false)
ending n (interrupted ∷ env) = ending n env
ending n (would_block ∷ env) = (pos n, none, false)
ending n (failed errno ∷ env) = (minus_one, some errno, false)
ending n (received [] ∷ env) = (pos 0, none, true)
ending n (received (x ∷ xs) ∷ env) = ending (n + length (x ∷ xs)) env

-- The kernel keeps to `count`: no call returns more bytes than were asked for, and one of them ends
-- the loop.
abbrev pub Serves : NetBuffer → List ReadOutcome → Type 0
Serves b [] = ⊥
Serves b (interrupted ∷ env) = Serves b env
Serves b (would_block ∷ env) = Unit
Serves b (failed errno ∷ env) = Unit
Serves b (received [] ∷ env) = Unit
Serves b (received (x ∷ xs) ∷ env) =
    (length (x ∷ xs) ≤ writeable b) × ((c : NetBuffer) → take_in b (x ∷ xs) ≡ ok c → Serves c env)
