-- ===== src/TcpServer/Start/Serving.antt =====
-- A server that was built and started takes every connection.
use adl_server.Base.{
  ℕ, zero, suc, ◌+◌, ◌^◌, ◌<◌, Bool, true, false, List, [], ◌∷◌, ◌++◌, Bytes, length, length-append,
  some, ok, fault, assert_failed, ℤ, ◌≡◌, refl, ap, ◌∙◌, arith,
}
use adl_server.InetAddress.{Libc, new_address}
use adl_server.InetAddress.RoundTrip.{IsDocumented, address_texts}
use adl_server.TcpServer.Acceptor.{Attempt, is_valid_fd, new_acceptor, listen}
use adl_server.TcpServer.SubLoop.{SubLoop, new_sub_loop, is_member}
use adl_server.TcpServer.Pool.{Pool, connect_size, start, start_loops, serve_slowly}
use adl_server.TcpServer.Pool.Balance.{IsFair, AreFair, AreRising, total_size, serve_slowly-AreFair}
use adl_server.TcpServer.Start.{
  Net, TcpServer, new_pool, bind_or_die, listen_or_die, new_server, start_server,
}

new_sub_loop-IsFair : (n : ℕ) → IsFair 0 n new_sub_loop
unfolding connect_size is_member
new_sub_loop-IsFair n = (refl, omega arith, omega arith, λ c h. refl)

append-AreFair :
    (k : ℕ) (ls : List SubLoop) → AreFair 0 k ls → AreFair 0 k (ls ++ (new_sub_loop ∷ []))
append-AreFair k [] fair = (new_sub_loop-IsFair k, tt)
append-AreFair k (l ∷ ls) (one, rest) = (one, append-AreFair k ls rest)

append-total_size : (ls : List SubLoop) → total_size (ls ++ (new_sub_loop ∷ [])) ≡ total_size ls
unfolding total_size connect_size
append-total_size [] = refl
append-total_size (l ∷ ls) = ap (λ (n : ℕ). length l.connect_set + n) (append-total_size ls)

start_loops_lem :
    (n k : ℕ) (ls : List SubLoop)
    → AreFair 0 k ls
    → AreFair 0 k (start_loops n ls)
      × (length (start_loops n ls) ≡ n + length ls)
      × (total_size (start_loops n ls) ≡ total_size ls)
unfolding start_loops
start_loops_lem zero k ls fair = (fair, omega arith, refl)
start_loops_lem (suc n) k ls fair =
    let (a, b, c) = start_loops_lem n k (ls ++ (new_sub_loop ∷ [])) (append-AreFair k ls fair) in
    let len = length-append ls (new_sub_loop ∷ []) in
    (a, omega (arith, b, len), c ∙ append-total_size ls)

-- The server of a host and a port, with what stood in `started_` of its pool.
abbrev IsBuilt : Bytes → Bytes → Bool → ℕ → TcpServer → Type 0
IsBuilt ip port stale n s =
    (s.ip ≡ ip)
    × (s.port ≡ port)
    × (s.acceptor.listening ≡ false)
    × (s.pool ≡ record { started = stale; num_threads = n; loops = [] })

module _ (c : Libc) (doc : IsDocumented c) (net : Net) (attempt : ℕ → Attempt) (open_null : ℕ → ℤ)
    (null_is : is_valid_fd (open_null 0) ≡ true) (ip : Bytes) (a port : ℕ) (small : port < 2 ^ 16)
    (known : c.inet_pton ip ≡ some a) (canonical : c.inet_ntop a ≡ ip)
    (binds : net.can_bind net.socket (new_address c ip port) ≡ true)
    (listens : net.can_listen net.socket ≡ true) where
  built :
      (b v : Bool) (n : ℕ)
      → (s : TcpServer) × (new_server c net attempt open_null b v (new_address c ip port) n ≡ ok s)
        × (s.socket ≡ net.socket)
        × IsBuilt ip (c.decimal port) v n s
  unfolding new_server new_acceptor bind_or_die new_pool
  built b v n =
      let (text, _, _, digits) = address_texts c doc ip a port small known canonical in
      let s : TcpServer = record {
        ip = ip;
        port = c.decimal port;
        started = b;
        socket = net.socket;
        acceptor = record {
          idle_fd = open_null 0;
          listening = false;
          has_callback = true;
          handed = [];
          closed = [];
          accepts = 0;
          opens = 1;
        };
        pool = record { started = v; num_threads = n; loops = [] };
      } in
      (s, rw (text, digits, null_is, binds) refl, refl, (refl, refl, refl, refl))

  started :
      (n : ℕ) (s : TcpServer)
      → s.socket ≡ net.socket
      → IsBuilt ip (c.decimal port) false n s
      → (t : TcpServer) × (start_server net s ≡ ok t)
        × (t.acceptor.listening ≡ true)
        × (t.pool ≡ record { started = true; num_threads = n; loops = start_loops n [] })
  unfolding start_server start listen_or_die listen
  started n s same (_, _, idle, fresh) =
      let t : TcpServer = record s {
        started = true;
        pool = record { started = true; num_threads = n; loops = start_loops n [] };
        acceptor = record (s.acceptor) { listening = true };
      } in
      (t, rw (fresh, idle, same, listens) refl, refl, refl)

  -- The C library, the address text and the port are as under InetAddress.RoundTrip; the idle
  -- descriptor is there, bind and listen succeed, and there is a thread at least. The server can be
  -- built, whatever stands in the two `started_`, which no constructor initialises. Where false
  -- stands in that of the pool, the server can be started: it has the texts of its address, it
  -- listens, and it has a loop for each thread; whatever connections come then, each but once, and
  -- where the loops run their functors between one and the next: no assertion fails, each
  -- connection is taken by a loop, and the numbers of connections of the loops differ by one at
  -- most. A second start fails an assertion, and so does the first where true stands there.
  pub serving :
      (b : Bool) (n : ℕ) (cs : List ℕ)
      → 0 < n
      → AreRising 0 cs
      → (s : TcpServer) × (t : TcpServer) × (q : Pool) × (new_server c net attempt open_null b false
            (new_address c ip port)
            n
          ≡ ok s)
        × ((s.ip ≡ ip) × (s.port ≡ c.decimal port))
        × (start_server net s ≡ ok t)
        × (t.acceptor.listening ≡ true)
        × (length t.pool.loops ≡ n)
        × (serve_slowly cs t.pool ≡ ok q)
        × ((low : ℕ) × (k : ℕ) × AreFair low k q.loops)
        × (total_size q.loops ≡ length cs)
        × (start_server net t ≡ fault assert_failed)
        × ((u : TcpServer) × (new_server c net attempt open_null b true (new_address c ip port) n
              ≡ ok u)
            × (start_server net u ≡ fault assert_failed))
  unfolding total_size
  serving b n cs some_thread rising =
      let (s, made, same, fresh) = built b false n in
      let (u, made_on, _, on) = built b true n in
      let (t, begun, hears, pool) = started n s same fresh in
      let (fair, many, none_yet) = start_loops_lem n 0 [] tt in
      let loops = ap (λ (p : Pool). p.loops) pool in
      let len : length t.pool.loops ≡ n =
        ap (λ (l : List SubLoop). length l) loops ∙ many ∙ omega arith in
      let (q, serves, last, all) =
        serve_slowly-AreFair cs 0 0 t.pool (ap (λ (p : Pool). p.started) pool)
          (omega (arith, some_thread, len)) (rw loops fair) rising in
      (
        s,
        t,
        q,
        made,
        (fresh.0, fresh.1),
        begun,
        hears,
        len,
        serves,
        last,
        all
            ∙ ap (λ (m : ℕ). m + length cs)
                (ap (λ (l : List SubLoop). total_size l) loops ∙ none_yet)
            ∙ omega arith,
        again t (ap (λ (p : Pool). p.started) pool),
        (u, made_on, again u (ap (λ (p : Pool). p.started) on.3)),
      )
    where
      again : (t : TcpServer) → t.pool.started ≡ true → start_server net t ≡ fault assert_failed
      again t on = unfold start_server in rw on refl
