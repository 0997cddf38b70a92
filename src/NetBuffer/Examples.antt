-- ===== src/NetBuffer/Examples.antt =====
-- Runs of the buffer on small inputs, and the theorems about it at such inputs.
use adl_server.Base.{
  ℕ, ◌+◌, ◌≡◌, refl, List, [], ◌∷◌, ◌++◌, codes, Memory, slice, store, move_left, ok, ◌>>=◌, arith,
}
use adl_server.NetBuffer.Invariant.{IsValid}
use adl_server.NetBuffer.ReadFd.Offsets.{third_pread}
use adl_server.NetBuffer.ReadFd.Total.{Reads, read_fd_total}
use adl_server.NetBuffer.ReadFd.{
  ReadOutcome, received, interrupted, would_block, read_fd, Request, pread, FdResult, take_in,
  read_loop, logged, request,
}
use adl_server.NetBuffer.Refinement.{
  Call, appends, retrieves, takes, reads_int, takes_all, perform, run, run_refines,
}
use adl_server.NetBuffer.{
  NetBuffer, peek_int, read_int, retrieve_all_as_string, init, contents, append, retrieve,
  retrieve_as_string, check_capacity, grow, expansion, compact, copy_in,
}

abbrev blank : Memory
blank i = 0

-- Eight bytes, of which the first three are "abc".
abbrev small : NetBuffer
small = record { cells = λ i. i + 97; r = 0; w = 3; alloc = 8 }

small-IsValid : IsValid small
small-IsValid = omega arith

abbrev history : List Call
history =
    appends (codes "GET /")
    ∷ takes 4
    ∷ appends (codes "a.txt HTTP/1.1")
    ∷ retrieves 2
    ∷ takes 3
    ∷ reads_int
    ∷ takes_all
    ∷ []

history_runs :
    (do (out, b) ← run (init blank 8) history; ok (out ++ b'|' ∷ contents b))
    ≡ ok (codes "GET .txt HTTP/1.1|")
unfolding run perform init append retrieve retrieve_as_string retrieve_all_as_string peek_int
    read_int check_capacity grow expansion compact copy_in contents slice store move_left
history_runs = refl

run_refines_example :
    (b' : NetBuffer) × (run small history ≡ ok (codes "abcG /a.txt HTTP/1.1", b'))
    × IsValid b'
    × (contents b' ≡ [])
unfolding contents slice
run_refines_example = run_refines history small (codes "abcG /a.txt HTTP/1.1") [] small-IsValid refl

abbrev arrivals : List ReadOutcome
arrivals = received (codes "GET") ∷ interrupted ∷ would_block ∷ []

read_fd_total_example :
    (res : FdResult) × (read_fd small 0 arrivals ≡ ok res) × Reads small 0 arrivals res
read_fd_total_example =
    read_fd_total small 0 arrivals small-IsValid (omega arith, λ c e. tt)
      (unfold slice contents in omega arith)

-- A file of ten bytes, sent from offset 1: the third request is for offset 3 and not 6.
abbrev pieces : List ReadOutcome
pieces = received (codes "bcd") ∷ received (codes "ef") ∷ received [] ∷ []

pieces_run :
    (do res ← read_fd small 1 pieces; ok res.requests)
    ≡ ok (pread 5 1 ∷ pread 2 4 ∷ pread 8184 3 ∷ [])
unfolding read_fd read_loop logged request take_in check_capacity grow expansion compact copy_in
    contents slice store move_left
pieces_run = refl

third_pread_example :
    (n m k : ℕ) × (rest : List Request) × ((pread 5 1 ∷ pread 2 4 ∷ pread 8184 3 ∷ [])
      ≡ pread n 1 ∷ pread m 4 ∷ pread k 3 ∷ rest)
unfolding read_fd read_loop logged request take_in check_capacity grow expansion compact copy_in
    contents slice store move_left
third_pread_example =
    third_pread small 1 (codes "bcd") (codes "ef") (received []) [] (omega arith) (λ e. cc)
      (λ e. cc) refl
