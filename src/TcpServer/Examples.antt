-- ===== src/TcpServer/Examples.antt =====
-- Runs of the acceptor and of the loops.
use adl_server.Base.{
  ℕ, zero, suc, true, false, List, [], ◌∷◌, codes, length, some, ok, fault, assert_failed, bytes_eq,
  ◌≡◌, refl, pos, arith,
}
use adl_server.TcpServer.Acceptor.{
  Acceptor, Attempt, connection, failure, eagain, eintr, emfile, accept_loop,
}
use adl_server.TcpServer.Acceptor.Rounds.{
  Event, arrives, interrupted, full, Accepts, accept_loop-Accepts,
}
use adl_server.TcpServer.SubLoop.{
  SubLoop, Action, accepted, round, event, shuts_down, closes, new_sub_loop,
}
use adl_server.TcpServer.Pool.{Pool, get_next_loop, update_at, serve_burst, serve_slowly}
use adl_server.TcpServer.Pool.Burst.{IsLeastLoaded, new_connections, serve_burst_lem}
use adl_server.TcpServer.Pool.Balance.{AreFair, total_size}
use adl_server.InetAddress.{SockAddr, new_address}
use adl_server.InetAddress.Examples.{host, libc, libc-IsDocumented}
use adl_server.TcpServer.Start.{Net, TcpServer, new_server, start_server}
use adl_server.TcpServer.Start.Serving.{serving}

-- A connection, an interrupt, no descriptor left, another connection.
abbrev results : ℕ → Attempt
results zero = connection 7 (codes "peer")
results (suc zero) = failure eintr
results (suc (suc zero)) = failure emfile
results (suc (suc (suc zero))) = connection 9 (codes "late")
results (suc (suc (suc (suc k)))) = failure eagain

abbrev listener : Acceptor
listener = record {
  idle_fd = pos 3;
  listening = true;
  has_callback = true;
  handed = [];
  closed = [];
  accepts = 0;
  opens = 1;
}

abbrev visits : List Event
visits = arrives 7 (codes "peer") ∷ interrupted ∷ full (connection 9 (codes "late")) ∷ []

accept_loop-Accepts_example :
    (b : Acceptor) × (accept_loop results (λ k. pos 3) 4 listener ≡ ok b)
    × Accepts results (λ k. pos 3) (λ k. refl) visits listener b
accept_loop-Accepts_example =
    accept_loop-Accepts results (λ k. pos 3) (λ k. refl) visits 4 listener (omega arith) refl refl
      (refl, (refl, (refl, (refl, (refl, tt)))))

-- Both sides close the first connection at once.
abbrev busy_day : List Action
busy_day =
    accepted 0
    ∷ round
    ∷ accepted 1
    ∷ closes 0
    ∷ event 0 false true
    ∷ round
    ∷ shuts_down 1
    ∷ round
    ∷ event 1 true false
    ∷ event 1 false true
    ∷ []

abbrev two_numbers : List ℕ
two_numbers = 4 ∷ 7 ∷ []

abbrev pool : Pool
pool = record { started = true; num_threads = 2; loops = new_sub_loop ∷ new_sub_loop ∷ [] }

serve_burst_lem_example :
    (i : ℕ) × (get_next_loop pool ≡ ok i)
    × ((l : SubLoop) × IsLeastLoaded i l pool.loops)
    × (serve_burst two_numbers pool
        ≡ ok (record pool { loops = update_at i (new_connections two_numbers) pool.loops }))
serve_burst_lem_example = serve_burst_lem two_numbers pool refl (omega arith)

-- A network that refuses nothing, on which the server gets the socket 4 and the idle descriptor 5.
abbrev net : Net
net = record { socket = some 4; can_bind = λ fd a. true; can_listen = λ fd. true }

abbrev home : SockAddr
home = new_address libc host 9017

serving_example :
    (s : TcpServer) × (t : TcpServer) × (q : Pool) × (new_server libc net
        (λ k. failure eagain)
        (λ k. pos 5)
        true
        false
        home
        2
      ≡ ok s)
    × ((s.ip ≡ host) × (s.port ≡ codes "9017"))
    × (start_server net s ≡ ok t)
    × (t.acceptor.listening ≡ true)
    × (length t.pool.loops ≡ 2)
    × (serve_slowly two_numbers t.pool ≡ ok q)
    × ((low : ℕ) × (k : ℕ) × AreFair low k q.loops)
    × (total_size q.loops ≡ length two_numbers)
    × (start_server net t ≡ fault assert_failed)
    × ((u : TcpServer) × (new_server libc net (λ k. failure eagain) (λ k. pos 5) true true home 2
          ≡ ok u)
        × (start_server net u ≡ fault assert_failed))
unfolding bytes_eq
serving_example =
    serving libc libc-IsDocumented net (λ k. failure eagain) (λ k. pos 5) refl host 16777343 9017
      (omega arith) refl refl refl refl true 2 two_numbers (omega arith)
      (omega arith, (omega arith, tt))
