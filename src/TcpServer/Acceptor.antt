-- ===== src/TcpServer/Acceptor.antt =====
-- src/net/Acceptor.cpp, with `accept` of src/net/Socket.cpp. The results of `accept4` and of the open
-- of /dev/null are parameters, by the number of the call.
pub mod Rounds
use adl_server.Base.{
  ℕ, zero, suc, ◌+◌, Bool, true, false, List, [], ◌∷◌, ◌++◌, leb, if◌then◌else◌, Result, ok, fault,
  check, aborted, assert_failed, endless, ◌>>=◌, ◌>>◌, ℤ, pos, negsuc, minus_one, Bytes,
}

-- The errors that `sock::accept` lists, and any other.
pub data Errno : Type 0 where
  eagain econnaborted eintr eproto eperm emfile : Errno
  ebadf efault einval enfile enobufs enomem enotsock eopnotsupp : Errno
  unknown : ℕ → Errno

-- A descriptor with the address of the peer, or an error.
pub data Attempt : Type 0 where
  connection : ℕ → Bytes → Attempt
  failure : Errno → Attempt

-- The errors behind which LOG(FATAL) does not abort.
unfoldable pub is_expected : Errno → Bool
is_expected eagain = true
is_expected econnaborted = true
is_expected eintr = true
is_expected eproto = true
is_expected eperm = true
is_expected emfile = true
is_expected _ = false

unfoldable pub accept : Attempt → Result Attempt
accept (connection fd peer) = ok (connection fd peer)
accept (failure e) = do check (is_expected e) aborted; ok (failure e)

-- `handed` are the connections that the callback was given and `closed` the arguments of `close`, both in
-- order; `accepts` and `opens` count the calls of `accept4` and of `open`.
pub record Acceptor : Type 0 where
  pub idle_fd : ℤ
  pub listening : Bool
  pub has_callback : Bool
  pub handed : List (ℕ × Bytes)
  pub closed : List ℤ
  pub accepts : ℕ
  pub opens : ℕ

-- What the loop does behind an attempt: another round or none.
pub data Next : Type 0 where
  again stop : Next

unfoldable pub close_fd : ℤ → Acceptor → Acceptor
close_fd fd a = record a { closed = a.closed ++ (fd ∷ []) }

-- The descriptor that a call returns.
unfoldable pub fd_of : Attempt → ℤ
fd_of (connection fd peer) = pos fd
fd_of (failure e) = minus_one

unfoldable pub hand_over : ℕ → Bytes → Acceptor → Acceptor
hand_over fd peer a =
    if a.has_callback
    then record a { handed = a.handed ++ ((fd, peer) ∷ []) }
    else close_fd (pos fd) a

abbrev pub is_valid_fd : ℤ → Bool
is_valid_fd (pos n) = true
is_valid_fd (negsuc n) = false

-- `listen`, and the end of the destructor.
unfoldable pub listen : Acceptor → Acceptor
listen a = record a { listening = true }

unfoldable pub close_acceptor : Acceptor → Acceptor
close_acceptor a = close_fd a.idle_fd a

module _ (attempt : ℕ → Attempt) (open_null : ℕ → ℤ) where
  -- The constructor: the idle descriptor must be there.
  unfoldable pub new_acceptor : Bool → Result Acceptor
  new_acceptor has_callback = do
    check (is_valid_fd (open_null 0)) assert_failed
    ok (record {
      idle_fd = open_null 0;
      listening = false;
      has_callback = has_callback;
      handed = [];
      closed = [];
      accepts = 0;
      opens = 1;
    })

  -- The branch of EMFILE: a connection is accepted with the idle descriptor and closed.
  unfoldable pub refuse_one : Acceptor → Acceptor
  refuse_one a =
      let b = close_fd a.idle_fd a in
      let fd = fd_of (attempt b.accepts) in
      let c = close_fd fd (record b { idle_fd = fd; accepts = suc b.accepts }) in
      record c { idle_fd = open_null c.opens; opens = suc c.opens }

  unfoldable pub after_failure : Errno → Acceptor → Next × Acceptor
  after_failure emfile a = (again, refuse_one a)
  after_failure eintr a = (again, a)
  after_failure eagain a = (stop, a)
  after_failure _ a = (again, a)

  unfoldable pub after_accept : Attempt → Acceptor → Next × Acceptor
  after_accept (connection fd peer) a = (again, hand_over fd peer a)
  after_accept (failure e) a = after_failure e a

  -- One round of the loop.
  unfoldable pub accept_round : Acceptor → Result (Next × Acceptor)
  accept_round a = do
    r ← accept (attempt a.accepts)
    ok (after_accept r (record a { accepts = suc a.accepts }))

  unfoldable pub accept_loop : ℕ → Acceptor → Result Acceptor
  accept_loop zero a = fault endless
  accept_loop (suc fuel) a = do
    (next, b) ← accept_round a
    elim next [ again ↦ accept_loop fuel b | stop ↦ ok b ]
