-- ===== src/TcpServer/Pool/Balance.antt =====
-- The connections of the loops differ by one at most where the loops keep up.
use adl_server.Base.{
  at, ℕ, zero, suc, ◌+◌, ◌<◌, ◌≤◌, leb, Bool-cases, inl, inr, true, false, List, [], ◌∷◌, length,
  some, ok, ◌≡◌, refl, ap, arith,
}
use adl_server.TcpConnection.{connecting, connected}
use adl_server.TcpServer.SubLoop.{
  SubLoop, is_member, insert, set_at, new_connection, run_pending, run_tasks, run_task,
  connect_established,
}
use adl_server.TcpServer.SubLoop.Members.{set_at_same, other}
use adl_server.TcpServer.Pool.{
  Pool, connect_size, get_next_loop, update_at, serve, serve_slowly, run_loops,
}
use adl_server.TcpServer.Pool.Burst.{serve_burst_lem}

-- A loop with nothing queued, with `least` connections or one more, whose numbers are below n.
abbrev pub IsFair : ℕ → ℕ → SubLoop → Type 0
IsFair least n l =
    (l.pending ≡ [])
    × (least ≤ connect_size l)
    × (connect_size l ≤ suc least)
    × ((c : ℕ) → n ≤ c → is_member c l.connect_set ≡ false)

abbrev pub AreFair : ℕ → ℕ → List SubLoop → Type 0
AreFair least n [] = Unit {0}
AreFair least n (l ∷ ls) = IsFair least n l × AreFair least n ls

-- All connections of the loops.
unfoldable pub total_size : List SubLoop → ℕ
total_size [] = 0
total_size (l ∷ ls) = connect_size l + total_size ls

-- Loops that ran: fair ones again, as many as before, with so many more connections.
abbrev Ran : ℕ → ℕ → ℕ → List SubLoop → List SubLoop → Type 0
Ran least n more ls ms =
    AreFair least n ms × (length ms ≡ length ls) × (total_size ms ≡ total_size ls + more)

idle_run :
    (l : SubLoop)
    → l.pending ≡ []
    → (m : SubLoop) × (run_pending l ≡ ok m) × (m.pending ≡ []) × (m.connect_set ≡ l.connect_set)
unfolding run_pending run_tasks
idle_run l h = (record l { pending = [] }, rw h refl, refl, refl)

-- The loop with a new connection adds it to its set.
first_run :
    (c : ℕ) (l : SubLoop)
    → l.pending ≡ []
    → is_member c l.connect_set ≡ false
    → (m : SubLoop) × (run_pending (new_connection c l) ≡ ok m)
      × (m.pending ≡ [])
      × (m.connect_set ≡ c ∷ l.connect_set)
unfolding new_connection run_pending run_tasks run_task connect_established insert
first_run c l h new = (
  record l {
    connect_set = c ∷ l.connect_set;
    pending = [];
    state = set_at c connected (set_at c connecting l.state);
    watched = set_at c true (set_at c false l.watched);
  },
  rw (h, new) (rw (set_at_same c connecting l.state) refl),
  refl,
  refl,
)

-- Where every loop is above the least number, the next number is the least.
raised :
    (least n : ℕ) (ls : List SubLoop)
    → AreFair least n ls
    → ((k : ℕ) (l : SubLoop) → at ls k ≡ some l → suc least ≤ connect_size l)
    → AreFair (suc least) n ls
unfolding at
raised least n [] fair above = tt
raised least n (l ∷ ls) ((quiet, low, high, new), rest) above = (
  (quiet, above 0 l refl, omega (arith, high), new),
  raised least n ls rest (λ k m h. above (suc k) m h),
)

-- The runs of loops without a new connection.
run_others :
    (least n k : ℕ) (ls : List SubLoop)
    → n ≤ k
    → AreFair least n ls
    → (ms : List SubLoop) × (run_loops ls ≡ ok ms) × Ran least k 0 ls ms
unfolding run_loops connect_size total_size
run_others least n k [] h fair = ([], refl, (tt, refl, refl))
run_others least n k (l ∷ ls) h ((quiet, low, high, new), rest) =
    let (m, e, idle, same) = idle_run l quiet in
    let (ms, f, (fair, len, sum)) = run_others least n k ls h rest in
    (
      m ∷ ms,
      rw (e, f) refl,
      (
        ((idle, rw same low, rw same high, λ c g. rw same (new c (omega (arith, h, g)))), fair),
        ap suc len,
        rw same (omega (arith, sum)),
      ),
    )

run_chosen :
    (least n c i : ℕ) (l : SubLoop) (ls : List SubLoop)
    → n ≤ c
    → AreFair least n ls
    → at ls i ≡ some l
    → connect_size l ≤ least
    → (ms : List SubLoop) × (run_loops (update_at i (new_connection c) ls) ≡ ok ms)
      × Ran least (suc c) 1 ls ms
unfolding run_loops update_at at connect_size is_member total_size
run_chosen least n c i l [] h fair e size = absurd (cc)
run_chosen least n c zero l (m ∷ ls) h ((quiet, low, high, new), rest) e size =
    let same : m ≡ l = cc in
    let small : length m.connect_set ≤ least = rw same size in
    let (r, f, idle, set) = first_run c m quiet (new c h) in
    let (ms, g, (fair, len, sum)) = run_others least n (suc c) ls (omega (arith, h)) rest in
    (
      r ∷ ms,
      rw (f, g) refl,
      (
        (
          (
            idle,
            rw set (omega (arith, low)),
            rw set (omega (arith, small)),
            λ d k. rw (set, other d c (omega (arith, k)), new d (omega (arith, h, k))) refl,
          ),
          fair,
        ),
        ap suc len,
        rw set (omega (arith, sum)),
      ),
    )
run_chosen least n c (suc i) l (m ∷ ls) h ((quiet, low, high, new), rest) e size =
    let (r, f, idle, set) = idle_run m quiet in
    let (ms, g, (fair, len, sum)) = run_chosen least n c i l ls h rest e size in
    (
      r ∷ ms,
      rw (f, g) refl,
      (
        ((idle, rw set low, rw set high, λ d k. rw set (new d (omega (arith, h, k)))), fair),
        ap suc len,
        rw set (omega (arith, sum)),
      ),
    )

at-IsFair :
    (least n k : ℕ) (ls : List SubLoop) (l : SubLoop)
    → AreFair least n ls
    → at ls k ≡ some l
    → IsFair least n l
unfolding at
at-IsFair least n k [] l fair h = absurd (cc)
at-IsFair least n zero (m ∷ ls) l (fair, rest) h = let same : l ≡ m = cc in rw same fair
at-IsFair least n (suc k) (m ∷ ls) l (fair, rest) h = at-IsFair least n k ls l rest h

-- One connection, and the runs behind it: the least number may rise by one.
serve_one :
    (least n c : ℕ) (p : Pool)
    → p.started ≡ true
    → 0 < length p.loops
    → AreFair least n p.loops
    → n ≤ c
    → (i : ℕ) × (get_next_loop p ≡ ok i)
      × (low : ℕ) × (ms : List SubLoop) × (run_loops (update_at i (new_connection c) p.loops)
          ≡ ok ms)
      × Ran low (suc c) 1 p.loops ms
serve_one least n c p s h fair new =
    let (i, e, (l, (there, below, first)), burst) = serve_burst_lem [] p s h in
    elim (Bool-cases (leb (connect_size l) least)) [
      | inl y ↦
          let (ms, f, ran) = run_chosen least n c i l p.loops new fair there (ground (arith, y)) in
          (i, e, least, ms, f, ran)
      | inr m ↦
          let above : suc least ≤ connect_size l = ground (arith, m) in
          let up =
            raised least n p.loops fair (λ k o g. let b = below k o g in omega (arith, above, b)) in
          let (quiet, low, high, fresh) = at-IsFair least n i p.loops l fair there in
          let (ms, f, ran) = run_chosen (suc least) n c i l p.loops new up there high in
          (i, e, suc least, ms, f, ran)
    ]

-- Numbers that rise, from n on.
abbrev pub AreRising : ℕ → List ℕ → Type 0
AreRising n [] = Unit {0}
AreRising n (c ∷ cs) = (n ≤ c) × AreRising (suc c) cs

-- Connections come to a pool whose loops are fair: idle, and with numbers of connections that differ
-- by one at most. Where the loops run their functors between one connection and the next, every
-- connection is taken by a loop, no assertion fails, and the loops are fair again in the end.
pub serve_slowly-AreFair :
    (cs : List ℕ) (n least : ℕ) (p : Pool)
    → p.started ≡ true
    → 0 < length p.loops
    → AreFair least n p.loops
    → AreRising n cs
    → (q : Pool) × (serve_slowly cs p ≡ ok q)
      × ((low : ℕ) × (k : ℕ) × AreFair low k q.loops)
      × (total_size q.loops ≡ total_size p.loops + length cs)
unfolding serve_slowly serve
serve_slowly-AreFair [] n least p s h fair _ = (p, refl, (least, n, fair), omega arith)
serve_slowly-AreFair (c ∷ cs) n least p s h fair (new, rising) =
    let (i, e, low, ms, f, (kept, len, sum)) = serve_one least n c p s h fair new in
    let (q, g, last, all) =
      serve_slowly-AreFair cs (suc c) low (record p { loops = ms }) s (omega (arith, h, len)) kept
        rising in
    (q, rw (e, f) g, last, omega (arith, all, sum))
