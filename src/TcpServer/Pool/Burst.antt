-- ===== src/TcpServer/Pool/Burst.antt =====
-- Where connections go that come before the loops have run.
use adl_server.Base.{
  at, ℕ, zero, suc, ◌<◌, ◌≤◌, true, List, [], ◌∷◌, map, length, some, ok, ◌≡◌, refl, sym, ap, ◌∙◌,
  arith,
}
use adl_server.TcpServer.SubLoop.{SubLoop, new_connection}
use adl_server.TcpServer.Pool.{
  min_element, Pool, connect_size, get_next_loop, update_at, serve, serve_burst,
}
use adl_server.TcpServer.Pool.Least.{min_element-IsFirstLeast}

at-map :
    (f : SubLoop → ℕ) (ls : List SubLoop) (i y : ℕ)
    → at (map f ls) i ≡ some y
    → (l : SubLoop) × (at ls i ≡ some l) × (f l ≡ y)
unfolding at
at-map f [] i y h = absurd (cc)
at-map f (l ∷ ls) zero y h = (l, refl, (cc))
at-map f (l ∷ ls) (suc i) y h = at-map f ls i y h

pub map-at :
    (f : SubLoop → ℕ) (ls : List SubLoop) (i : ℕ) (l : SubLoop)
    → at ls i ≡ some l
    → at (map f ls) i ≡ some (f l)
unfolding at
map-at f [] i l h = absurd (cc)
map-at f (m ∷ ls) zero l h = let same : m ≡ l = cc in ap (λ z. some (f z)) same
map-at f (m ∷ ls) (suc i) l h = map-at f ls i l h

-- The loop with the fewest connections, the first of them.
abbrev pub IsLeastLoaded : ℕ → SubLoop → List SubLoop → Type 0
IsLeastLoaded i l ls =
    (at ls i ≡ some l)
    × ((k : ℕ) (m : SubLoop) → at ls k ≡ some m → connect_size l ≤ connect_size m)
    × ((k : ℕ) (m : SubLoop) → k < i → at ls k ≡ some m → connect_size l < connect_size m)

least_loaded :
    (ls : List SubLoop)
    → 0 < length ls
    → (l : SubLoop) × IsLeastLoaded (min_element (map connect_size ls)) l ls
least_loaded [] h = absurd (omega (arith, h))
least_loaded (m ∷ ms) h =
    let i = min_element (map connect_size (m ∷ ms)) in
    let (x, there, least, first) =
      min_element-IsFirstLeast (connect_size m) (map connect_size ms) in
    let (l, e, size) = at-map connect_size (m ∷ ms) i x there in
    (
      l,
      (
        e,
        λ k n f. rw size (least k (connect_size n) (map-at connect_size (m ∷ ms) k n f)),
        λ k n lt f. rw size (first k (connect_size n) lt (map-at connect_size (m ∷ ms) k n f)),
      ),
    )

-- The connections, one after the other.
unfoldable pub new_connections : List ℕ → SubLoop → SubLoop
new_connections [] l = l
new_connections (c ∷ cs) l = new_connections cs (new_connection c l)

sizes_stay :
    (i c : ℕ) (ls : List SubLoop)
    → map connect_size (update_at i (new_connection c) ls) ≡ map connect_size ls
unfolding update_at connect_size new_connection
sizes_stay i c [] = refl
sizes_stay zero c (l ∷ ls) = refl
sizes_stay (suc i) c (l ∷ ls) = ap (λ z. connect_size l ∷ z) (sizes_stay i c ls)

update_twice :
    (i : ℕ) (f g : SubLoop → SubLoop) (ls : List SubLoop)
    → update_at i f (update_at i g ls) ≡ update_at i (λ l. f (g l)) ls
unfolding update_at
update_twice i f g [] = refl
update_twice zero f g (l ∷ ls) = refl
update_twice (suc i) f g (l ∷ ls) = ap (λ z. l ∷ z) (update_twice i f g ls)

update_none : (i : ℕ) (ls : List SubLoop) → update_at i (λ l. l) ls ≡ ls
unfolding update_at
update_none i [] = refl
update_none zero (l ∷ ls) = refl
update_none (suc i) (l ∷ ls) = ap (λ z. l ∷ z) (update_none i ls)

pub at-update :
    (i : ℕ) (f : SubLoop → SubLoop) (ls : List SubLoop) (l : SubLoop)
    → at ls i ≡ some l
    → at (update_at i f ls) i ≡ some (f l)
unfolding update_at at
at-update i f [] l h = absurd (cc)
at-update zero f (m ∷ ls) l h = let same : m ≡ l = cc in ap (λ z. some (f z)) same
at-update (suc i) f (m ∷ ls) l h = at-update i f ls l h

same_choice :
    (i : ℕ) (l : SubLoop) (p : Pool)
    → p.started ≡ true
    → min_element (map connect_size p.loops) ≡ i
    → at p.loops i ≡ some l
    → get_next_loop p ≡ ok i
unfolding get_next_loop
same_choice i l p s e h = rw (s, e, h, e) refl

-- The connections are queued in the loop that was chosen for the first.
piled :
    (cs : List ℕ) (i : ℕ) (l : SubLoop) (p : Pool)
    → p.started ≡ true
    → min_element (map connect_size p.loops) ≡ i
    → at p.loops i ≡ some l
    → serve_burst cs p ≡ ok (record p { loops = update_at i (new_connections cs) p.loops })
unfolding serve_burst new_connections
piled [] i l p s e h = ap (λ z. ok (record p { loops = z })) (sym (update_none i p.loops))
piled (c ∷ cs) i l p s e h =
    let q : Pool = record p { loops = update_at i (new_connection c) p.loops } in
    let first : serve c p ≡ ok q = unfold serve in rw (same_choice i l p s e h) refl in
    let still : min_element (map connect_size q.loops) ≡ i =
      ap (λ z. min_element z) (sizes_stay i c p.loops) ∙ e in
    let later =
      piled cs i (new_connection c l) q s still (at-update i (new_connection c) p.loops l h) in
    rw first (
      later
      ∙ ap (λ z. ok (record p { loops = z }))
          (update_twice i (new_connections cs) (new_connection c) p.loops))

-- A pool that was started with at least one thread gives a loop that has no more connections than any
-- other, and fewer than each before it. Connections that come before any loop has run its functors
-- all go to that same loop, however many they are.
pub serve_burst_lem :
    (cs : List ℕ) (p : Pool)
    → p.started ≡ true
    → 0 < length p.loops
    → (i : ℕ) × (get_next_loop p ≡ ok i)
      × ((l : SubLoop) × IsLeastLoaded i l p.loops)
      × (serve_burst cs p ≡ ok (record p { loops = update_at i (new_connections cs) p.loops }))
serve_burst_lem cs p s h =
    let (l, (e, least, first)) = least_loaded p.loops h in
    let i = min_element (map connect_size p.loops) in
    (i, same_choice i l p s refl e, (l, (e, least, first)), piled cs i l p s refl e)
