-- ===== src/NetBuffer/ReadFd/Offsets.antt =====
-- The offsets that `readFd` passes to `pread` when it reads a file from `sendFileOffset` on.
use adl_server.Base.{
  ℕ, ◌+◌, ◌<◌, ◌≡◌, ◌≢◌, refl, ap, ◌∙◌, List, [], ◌∷◌, Bytes, length, Result, ok, >>=-eq-ok, arith,
}
use adl_server.NetBuffer.ReadFd.{
  ReadOutcome, received, interrupted, would_block, failed, Request, pread, FdResult, take_in,
  request, logged, read_loop, read_fd,
}
use adl_server.NetBuffer.{NetBuffer, writeable}

-- A run that returns has logged its first request in front of those of the rest.
logged_eq_ok :
    (q : Request) (m : Result FdResult) {res : FdResult}
    → logged q m ≡ ok res
    → (rest : FdResult) × (m ≡ ok rest) × (res.requests ≡ q ∷ rest.requests)
unfolding logged
logged_eq_ok q (ok rest) h = (rest, refl, ground arith)
logged_eq_ok q m h = cc

request_pread :
    (b : NetBuffer) (offset at : ℕ) → 0 < offset → request b offset at ≡ pread (writeable b) at
unfolding request
request_pread b offset at h = ground arith

from_log :
    (b : NetBuffer) (offset at : ℕ) (m : Result FdResult) {res : FdResult}
    → 0 < offset
    → logged (request b offset at) m ≡ ok res
    → (count : ℕ) × (rest : List Request) × (res.requests ≡ pread count at ∷ rest)
from_log b offset at m p h =
    let (rest, _, e) = logged_eq_ok (request b offset at) m h in
    (
      writeable b,
      rest.requests,
      e ∙ ap (λ (q : Request). q ∷ rest.requests) (request_pread b offset at p),
    )

first_request :
    (b : NetBuffer) (offset at n : ℕ) (o : ReadOutcome) (env : List ReadOutcome) {res : FdResult}
    → 0 < offset
    → read_loop b offset at n (o ∷ env) ≡ ok res
    → (count : ℕ) × (rest : List Request) × (res.requests ≡ pread count at ∷ rest)
unfolding read_loop
first_request b offset at n interrupted env p h = from_log b offset at _ p h
first_request b offset at n would_block env p h = from_log b offset at _ p h
first_request b offset at n (failed errno) env p h = from_log b offset at _ p h
first_request b offset at n (received []) env p h = from_log b offset at _ p h
first_request b offset at n (received (x ∷ xs)) env p h = from_log b offset at _ p h

-- After a read of `bytes` the loop goes on at `offset + length bytes`.
after_read :
    (b : NetBuffer) (offset at n : ℕ) (bytes : Bytes) (env : List ReadOutcome) {res : FdResult}
    → bytes ≢ []
    → read_loop b offset at n (received bytes ∷ env) ≡ ok res
    → (c : NetBuffer) × (rest : FdResult) × (read_loop c offset
          (offset + length bytes)
          (n + length bytes)
          env
        ≡ ok rest)
      × (res.requests ≡ request b offset at ∷ rest.requests)
unfolding read_loop
after_read b offset at n [] env ne h = absurd (ne refl)
after_read b offset at n (x ∷ xs) env ne h =
    let (rest, e, q) = logged_eq_ok (request b offset at) _ h in
    let (c, _, f) = >>=-eq-ok (take_in b (x ∷ xs)) _ e in (c, rest, f, q)

-- After two reads the third `pread` asks for the offset `sendFileOffset` plus the size of the second
-- read alone: the bytes of the first read are not counted, so the bytes that follow the second read
-- in the file are asked for only where the first read was empty.
pub third_pread :
    (b : NetBuffer) (offset : ℕ) (xs ys : Bytes) (o : ReadOutcome) (env : List ReadOutcome)
    {res : FdResult}
    → 0 < offset
    → xs ≢ []
    → ys ≢ []
    → read_fd b offset (received xs ∷ received ys ∷ o ∷ env) ≡ ok res
    → (n m k : ℕ) × (rest : List Request) × (res.requests
        ≡ pread n offset ∷ pread m (offset + length xs) ∷ pread k (offset + length ys) ∷ rest)
unfolding read_fd
third_pread b offset xs ys o env p nx ny h =
    let (c, r1, h1, q1) = after_read b offset offset 0 xs (received ys ∷ o ∷ env) nx h in
    let (d, r2, h2, q2) = after_read c offset (offset + length xs) _ ys (o ∷ env) ny h1 in
    let (k, rest, q3) = first_request d offset (offset + length ys) _ o env p h2 in
    (
      writeable b,
      writeable c,
      k,
      rest,
      cc (
        q1,
        q2,
        q3,
        request_pread b offset offset p,
        request_pread c offset (offset + length xs) p,
      ),
    )
