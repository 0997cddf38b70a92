-- ===== src/ThreadPool/Abandoned.antt =====
-- A pool may be destroyed while tasks are in its queue.
use adl_server.Base.{
  ℕ, zero, suc, at, true, false, List, [], ◌∷◌, ◌++◌, append-nil, append_assoc, length, some, ◌≡◌,
  ◌≢◌, refl, sym, ap, ◌∙◌, subst,
}
use adl_server.ThreadPool.{
  Position, testing, dozing, ended, ThreadPool, replicate, set_nth, thread_count, new_thread_pool,
  advance, thread_step, put_task, add_task, shut_down, IsFree, thread, adds, stops, Steps, stay, go,
}

at_middle : (pre post : List Position) (x : Position) → at (pre ++ (x ∷ post)) (length pre) ≡ some x
unfolding at
at_middle [] post x = refl
at_middle (q ∷ pre) post x = at_middle pre post x

set_middle :
    (pre post : List Position) (x y : Position)
    → set_nth (length pre) y (pre ++ (x ∷ post)) ≡ pre ++ (y ∷ post)
unfolding set_nth
set_middle [] post x y = refl
set_middle (q ∷ pre) post x y = ap (λ z. q ∷ z) (set_middle pre post x y)

-- A stopped pool, all of whose threads are before the test of their loop, but the first ones, which
-- are at their end.
abbrev Ends : ThreadPool → ThreadPool → List Position → Type 0
Ends start p threads =
    (q : ThreadPool) × Steps start q
    × (q.threads ≡ threads)
    × (q.tasks ≡ p.tasks)
    × (q.done ≡ p.done)

ends :
    (n : ℕ) (pre : List Position) (start p : ThreadPool)
    → Steps start p
    → p.running_state ≡ false
    → p.threads ≡ pre ++ replicate n testing
    → Ends start p (pre ++ replicate n ended)
unfolding replicate
ends zero pre start p steps off threads = (p, steps, threads, refl, refl)
ends (suc n) pre start p steps off threads =
    let i = length pre in
    let here : at p.threads i ≡ some testing =
      ap (λ z. at z i) threads ∙ at_middle pre (replicate n testing) testing in
    let next : ThreadPool = record p { threads = set_nth i ended p.threads } in
    let same : thread_step i testing p ≡ next = unfold thread_step advance in rw off refl in
    let reached : Steps start next =
      subst (λ z. Steps start z) same
        (go start p (thread_step i testing p) steps (thread i testing p here (λ e. absurd (cc)))) in
    let after : next.threads ≡ (pre ++ (ended ∷ [])) ++ replicate n testing =
      ap (λ z. set_nth i ended z) threads
      ∙ set_middle pre (replicate n testing) testing ended
      ∙ sym (append_assoc pre (ended ∷ []) (replicate n testing)) in
    let (q, more, all, tasks, done) = ends n (pre ++ (ended ∷ [])) start next reached off after in
    (q, more, all ∙ append_assoc pre (ended ∷ []) (replicate n ended), tasks, done)

none_dozing : (n i : ℕ) → at (replicate n testing) i ≢ some dozing
unfolding at replicate
none_dozing zero i e = absurd (cc)
none_dozing (suc n) zero e = absurd (cc)
none_dozing (suc n) (suc i) e = none_dozing n i e

-- The tasks are added while all threads are before the test of their loop.
filled :
    (size : ℕ) (ts front : List ℕ) (start p : ThreadPool)
    → Steps start p
    → p.running_state ≡ true
    → p.threads ≡ replicate size testing
    → p.tasks ≡ front
    → (q : ThreadPool) × Steps start q
      × (q.threads ≡ replicate size testing)
      × (q.tasks ≡ front ++ ts)
      × (q.done ≡ p.done)
unfolding put_task
filled size [] front start p steps on threads tasks =
    (p, steps, threads, tasks ∙ sym (append-nil front), refl)
filled size (t ∷ ts) front start p steps on threads tasks =
    let added : add_task t p ≡ some (put_task t p) = unfold add_task in rw on refl in
    let free : IsFree p = λ i e. none_dozing size i (ap (λ z. at z i) (sym threads) ∙ e) in
    let (q, more, same, all, done) =
      filled size ts (front ++ (t ∷ [])) start (put_task t p)
        (go start p (put_task t p) steps (adds t p (put_task t p) added free)) on threads
        (ap (λ z. z ++ (t ∷ [])) tasks) in
    (q, more, same, all ∙ append_assoc front (t ∷ []) ts, done)

-- Whatever the size of a pool and the tasks that it was given: there is a run in which the destructor
-- is called, every thread comes to its end, and all of the tasks are still in the queue, none done.
pub tasks_abandoned :
    (size : ℕ) (ts : List ℕ)
    → (q : ThreadPool) × Steps (new_thread_pool size) q
      × (q.threads ≡ replicate (thread_count size) ended)
      × (q.tasks ≡ ts)
      × (q.done ≡ [])
unfolding new_thread_pool shut_down
tasks_abandoned size ts =
    let start = new_thread_pool size in
    let (p, steps, threads, tasks, done) =
      filled (thread_count size) ts [] start start (stay start) refl refl refl in
    let (q, more, all, kept, last) =
      ends (thread_count size) [] start (shut_down p) (go start p (shut_down p) steps (stops p))
        refl threads in
    (q, more, all, kept ∙ tasks, last ∙ done)
