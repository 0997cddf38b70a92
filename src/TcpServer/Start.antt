-- ===== src/TcpServer/Start.antt =====
-- src/net/tcpServer.cpp with the set-up of the listening socket (src/net/Acceptor.cpp and Socket.cpp):
-- from the constructor of the server to the point where it takes connections. `none` is a socket that
-- could not be made, which the program goes on with.
pub mod Serving
use adl_server.Base.{
  ℕ, Bool, true, not, ltb, [], Bytes, Option, none, some, Result, ok, check, assert_failed, aborted,
  ◌>>=◌, ◌>>◌, ℤ,
}
use adl_server.InetAddress.{Libc, SockAddr, to_ip, to_port_string}
use adl_server.TcpServer.Acceptor.{Attempt, Acceptor, new_acceptor, listen}
use adl_server.TcpServer.Pool.{Pool, start}

-- Whether the calls of bind and listen succeed.
pub record Net : Type 0 where
  pub socket : Option ℕ
  pub can_bind : Option ℕ → SockAddr → Bool
  pub can_listen : Option ℕ → Bool

pub record TcpServer : Type 0 where
  pub ip : Bytes
  pub port : Bytes
  pub started : Bool
  pub socket : Option ℕ
  pub acceptor : Acceptor
  pub pool : Pool

-- The pool of a server, with no loops. Its constructor gives `started_` no value: the first argument
-- is what stands there.
unfoldable pub new_pool : Bool → ℕ → Pool
new_pool stale num_threads = record { started = stale; num_threads = num_threads; loops = [] }

unfoldable pub bind_or_die : Net → Option ℕ → SockAddr → Result (Unit {0})
bind_or_die net fd a = check (net.can_bind fd a) aborted

unfoldable pub listen_or_die : Net → Option ℕ → Result (Unit {0})
listen_or_die net fd = check (net.can_listen fd) aborted

module _ (c : Libc) (net : Net) (attempt : ℕ → Attempt) (open_null : ℕ → ℤ) where
  -- The constructor, with the acceptor and the callback that it is given. `stale` and `pool_stale` are
  -- what stands in the two `started_`, of the server and of the pool, which no code initialises.
  unfoldable pub new_server : Bool → Bool → SockAddr → ℕ → Result TcpServer
  new_server stale pool_stale a num_threads = do
    ip ← to_ip c a
    port ← to_port_string c a
    acceptor ← new_acceptor attempt open_null true
    _ ← bind_or_die net net.socket a
    ok (record {
      ip = ip;
      port = port;
      started = stale;
      socket = net.socket;
      acceptor = acceptor;
      pool = new_pool pool_stale num_threads;
    })

unfoldable pub set_thread_num : ℕ → TcpServer → Result TcpServer
set_thread_num n s = do
  check (ltb 0 n) assert_failed
  ok (record s { pool = record (s.pool) { num_threads = n } })

-- `start`, up to the loop of the main thread. The pool asserts once more that it was not started.
unfoldable pub start_server : Net → TcpServer → Result TcpServer
start_server net s = do
  check (not s.pool.started) assert_failed
  pool ← start s.pool
  check (not s.acceptor.listening) assert_failed
  _ ← listen_or_die net s.socket
  ok (record s { started = true; pool = pool; acceptor = listen s.acceptor })
