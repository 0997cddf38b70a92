-- ===== src/NetBuffer/ReadFd/Total.antt =====
-- `readFd` appends exactly the bytes that the descriptor delivered, whatever the calls return.
use adl_server.Base.{
  ℕ, ◌+◌, ◌-◌, ◌*◌, ◌≤◌, ◌<◌, ◌≡◌, refl, ap, ◌∙◌, sym, inl, inr, Bool, List, [], ◌∷◌, ◌++◌,
  append-nil, append_assoc, length-append, Bytes, length, leb, Bool-cases, Result, ok, arith, ℤ,
  Option,
}
use adl_server.NetBuffer.Contents.{check_capacity_total, copy_in_total, length-contents}
use adl_server.NetBuffer.Invariant.{IsValid}
use adl_server.NetBuffer.ReadFd.{
  ReadOutcome, received, interrupted, would_block, failed, Request, FdResult, take_in, request,
  logged, read_loop, read_fd, stop, delivered, ending, Serves,
}
use adl_server.NetBuffer.{NetBuffer, int_limit, readable, writeable, contents}

-- One read is stored whole, and leaves room for the next: no `read` is ever asked for 0 bytes.
pub take_in_total :
    (b : NetBuffer) (bytes : Bytes)
    → IsValid b
    → length bytes ≤ writeable b
    → 2 * (readable b + length bytes + 4096) < int_limit
    → (c : NetBuffer) × (take_in b bytes ≡ ok c)
      × IsValid c
      × (contents c ≡ contents b ++ bytes)
      × (0 < writeable c)
unfolding take_in
take_in_total b bytes v fits small =
    let (c, e, a) = copy_in_total b bytes v fits in
    let size : readable c ≡ readable b + length bytes = omega (
      arith,
      length-contents c,
      length-contents b,
      ap length a.extended,
      length-append (contents b) bytes,
    ) in
    elim (Bool-cases (leb (5 * writeable c) c.alloc)) [
      | inr roomy ↦ (c, rw (e, roomy), a.valid, a.extended, ground (arith, a.valid))
      | inl tight ↦
          let (d, f, room) = check_capacity_total c 4096 a.valid (omega (arith, size)) in
          (d, rw (e, tight) f, room.valid, room.same ∙ a.extended, omega (arith, room.room))
    ]

-- `res` is a run of the loop from `b` with `n` bytes read before it.
pub record Reads (b : NetBuffer) (n : ℕ) (env : List ReadOutcome) (res : FdResult) : Type 0 where
  pub valid : IsValid res.buffer
  pub extended : contents res.buffer ≡ contents b ++ delivered env
  pub reported : ◌≡◌ {A = ℤ × Option ℕ × Bool} (res.ret, res.saved_errno, res.closed) (ending n env)
  pub roomy : 0 < writeable b → 0 < writeable res.buffer

abbrev Runs : NetBuffer → ℕ → ℕ → ℕ → List ReadOutcome → Type 0
Runs b offset at n env =
    (res : FdResult) × (read_loop b offset at n env ≡ ok res) × Reads b n env res

-- The log of requests changes nothing else.
logged-Reads :
    {m : Result FdResult} (q : Request) (b : NetBuffer) (n : ℕ) (env : List ReadOutcome)
    → (res : FdResult) × (m ≡ ok res) × Reads b n env res
    → (res : FdResult) × (logged q m ≡ ok res) × Reads b n env res
unfolding logged
logged-Reads q b n env (res, e, h) = (
  record res { requests = q ∷ res.requests },
  rw e,
  record { valid = h.valid; extended = h.extended; reported = h.reported; roomy = h.roomy },
)

after_take_in :
    (b c : NetBuffer) (bytes : Bytes) (n : ℕ) (env all : List ReadOutcome)
    → contents c ≡ contents b ++ bytes
    → 0 < writeable c
    → delivered all ≡ bytes ++ delivered env
    → ending n all ≡ ending (n + length bytes) env
    → (res : FdResult) → Reads c (n + length bytes) env res
    → Reads b n all res
after_take_in b c bytes n env all e room d r res h = record {
  valid = h.valid;
  extended = h.extended ∙ rw (e, d) (append_assoc (contents b) bytes (delivered env));
  reported = h.reported ∙ sym r;
  roomy = λ _. h.roomy room;
}

-- A call that ends the loop.
stopped :
    (b : NetBuffer) (offset at n : ℕ) (env : List ReadOutcome)
    → IsValid b
    → delivered env ≡ []
    → (res : FdResult) × (logged
          (request b offset at)
          (stop b (ending n env).0 (ending n env).1 (ending n env).2)
        ≡ ok res)
      × Reads b n env res
unfolding logged
stopped b offset at n env v d = (
  _,
  refl,
  record {
    valid = v;
    extended = rw d (sym (append-nil (contents b)));
    reported = refl;
    roomy = λ h. h;
  },
)

read_loop_total :
    (b : NetBuffer) (offset at n : ℕ) (env : List ReadOutcome)
    → IsValid b
    → Serves b env
    → 2 * (readable b + length (delivered env) + 4096) < int_limit
    → Runs b offset at n env
unfolding read_loop
read_loop_total b offset at n [] v s small = absurd s
read_loop_total b offset at n (interrupted ∷ env) v s small =
    let (res, e, h) = read_loop_total b offset (offset - 1) n env v s small in
    logged-Reads (request b offset at) b n (interrupted ∷ env) (
      res,
      e,
      record { valid = h.valid; extended = h.extended; reported = h.reported; roomy = h.roomy },
    )
read_loop_total b offset at n (would_block ∷ env) v s small =
    stopped b offset at n (would_block ∷ env) v refl
read_loop_total b offset at n (failed errno ∷ env) v s small =
    stopped b offset at n (failed errno ∷ env) v refl
read_loop_total b offset at n (received [] ∷ env) v s small =
    stopped b offset at n (received [] ∷ env) v refl
read_loop_total b offset at n (received (x ∷ xs) ∷ env) v (fits, more) small =
    let bytes : Bytes = x ∷ xs in
    let split = length-append bytes (delivered env) in
    let (c, e, valid, grown, room) = take_in_total b bytes v fits (omega (arith, split)) in
    let size : readable c ≡ readable b + length bytes = omega (
      arith,
      length-contents c,
      length-contents b,
      ap length grown,
      length-append (contents b) bytes,
    ) in
    let (res, f, h) =
      read_loop_total c offset (offset + length bytes) (n + length bytes) env valid (more c e)
        (omega (arith, split, size)) in
    logged-Reads (request b offset at) b n (received bytes ∷ env) (
      res,
      rw (e) f,
      after_take_in b c bytes n env (received bytes ∷ env) grown room refl refl res h,
    )

-- From a valid buffer, while all stays below 2^30 and the kernel returns no more than was asked for,
-- `readFd` returns. The buffer then holds what it held and, behind it, all the bytes that the calls
-- delivered; the result, the errno and `writeClosed` tell how the loop ended: the count of bytes
-- where the call would block, 0 with the flag at the end of the stream (also if bytes came before
-- it), -1 with the errno on an error. A buffer with room keeps room.
pub read_fd_total :
    (b : NetBuffer) (offset : ℕ) (env : List ReadOutcome)
    → IsValid b
    → Serves b env
    → 2 * (readable b + length (delivered env) + 4096) < int_limit
    → (res : FdResult) × (read_fd b offset env ≡ ok res) × Reads b 0 env res
unfolding read_fd
read_fd_total b offset env v s small = read_loop_total b offset offset 0 env v s small
