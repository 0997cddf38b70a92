-- ===== src/TcpServer/Pool.antt =====
-- src/net/EventLoopThreadPool.cpp: the loop for a new connection.
pub mod Least
pub mod Burst
pub mod Balance
use adl_server.Base.{
  at, ℕ, zero, suc, ◌+◌, ◌<◌, ltb, Bool, true, false, not, List, [], length, ◌∷◌, ◌++◌, map, Option,
  none, some, if◌then◌else◌, Result, ok, fault, check, assert_failed, out_of_bounds, ◌>>=◌, ◌>>◌,
}
use adl_server.TcpServer.SubLoop.{SubLoop, new_sub_loop, new_connection, run_pending}

-- `std::min_element` of a vector with `<` on numbers: the least so far and its place, and the place of
-- the next element.
unfoldable pub min_from : ℕ → ℕ → ℕ → List ℕ → ℕ
min_from least place here [] = place
min_from least place here (x ∷ xs) =
    let smaller = min_from x here (suc here) xs in
    let same = min_from least place (suc here) xs in if ltb x least then smaller else same

unfoldable pub min_element : List ℕ → ℕ
min_element [] = 0
min_element (x ∷ xs) = min_from x 0 1 xs

pub record Pool : Type 0 where
  pub started : Bool
  pub num_threads : ℕ
  pub loops : List SubLoop

unfoldable pub connect_size : SubLoop → ℕ
connect_size l = length l.connect_set

-- `getNextLoop`, as a place in `loops_`. Without loops `*end()` is read.
unfoldable pub get_next_loop : Pool → Result ℕ
get_next_loop p = do
  check p.started assert_failed
  let i = min_element (map connect_size p.loops)
  elim (at p.loops i) [ none ↦ fault out_of_bounds | some loop ↦ ok i ]

unfoldable pub start_loops : ℕ → List SubLoop → List SubLoop
start_loops zero loops = loops
start_loops (suc n) loops = start_loops n (loops ++ (new_sub_loop ∷ []))

unfoldable pub start : Pool → Result Pool
start p = do
  check (not p.started) assert_failed
  ok (record p { started = true; loops = start_loops p.num_threads p.loops })

unfoldable pub update_at : ℕ → (SubLoop → SubLoop) → List SubLoop → List SubLoop
update_at i f [] = []
update_at zero f (l ∷ ls) = f l ∷ ls
update_at (suc i) f (l ∷ ls) = l ∷ update_at i f ls

-- `TcpServer::newConnection` for the connection c.
unfoldable pub serve : ℕ → Pool → Result Pool
serve c p = do i ← get_next_loop p; ok (record p { loops = update_at i (new_connection c) p.loops })

-- Each loop runs the functors that are queued in it.
unfoldable pub run_loops : List SubLoop → Result (List SubLoop)
run_loops [] = ok []
run_loops (l ∷ ls) = do m ← run_pending l; ms ← run_loops ls; ok (m ∷ ms)

-- Connections that come one after the other, before any loop has run.
unfoldable pub serve_burst : List ℕ → Pool → Result Pool
serve_burst [] p = ok p
serve_burst (c ∷ cs) p = do q ← serve c p; serve_burst cs q

-- Connections that come so slowly that all loops have run before the next one.
unfoldable pub serve_slowly : List ℕ → Pool → Result Pool
serve_slowly [] p = ok p
serve_slowly (c ∷ cs) p = do
  q ← serve c p
  ls ← run_loops q.loops
  serve_slowly cs (record q { loops = ls })
