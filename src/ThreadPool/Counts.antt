-- ===== src/ThreadPool/Counts.antt =====
-- The tasks and the idle threads of a pool, over all interleavings.
use adl_server.Base.{
  if◌then◌else◌, ℕ, zero, suc, ◌+◌, ◌-◌, ◌≤◌, at, Bool, true, false, List, [], ◌∷◌, ◌++◌,
  append_assoc, length, length-append, subst, none, some, Bool-cases, inl, inr, ◌≡◌, refl, sym, ap,
  ◌∙◌, arith, ◌==◌,
}
use adl_server.ThreadPool.{
  Position, testing, entering, dozing, asleep, holding, working, finished, ended, ThreadPool,
  replicate, set_nth, thread_count, new_thread_pool, look_by, advance, thread_step, put_task,
  add_task, shut_down, Step, thread, locks, adds, stops, Steps, stay, go,
}

-- 1 for a thread that counts as busy, and for one that has a task which is not done.
abbrev pub busy : Position → ℕ
busy (working t) = 1
busy finished = 1
busy _ = 0

abbrev pub loaded : Position → ℕ
loaded (holding t) = 1
loaded (working t) = 1
loaded _ = 0

-- How often a task is in a list of tasks, and in the hands of a thread.
abbrev pub hit : ℕ → ℕ → ℕ
hit u t = if u == t then 1 else 0

abbrev pub count : ℕ → List ℕ → ℕ
count u [] = 0
count u (t ∷ ts) = hit u t + count u ts

abbrev pub has : ℕ → Position → ℕ
has u (holding t) = hit u t
has u (working t) = hit u t
has u _ = 0

unfoldable pub total : (Position → ℕ) → List Position → ℕ
total f [] = 0
total f (q ∷ qs) = f q + total f qs

-- The tasks leave the queue in the order in which they came; they are in number, and each of them is
-- as often taken as it is done or in the hands of a thread; `idlThrNum` is the number of threads that
-- are not busy.
abbrev pub IsCounted : ThreadPool → Type 0
IsCounted p =
    (p.taken ++ p.tasks ≡ p.added)
    × (length p.taken ≡ length p.done + total loaded p.threads)
    × (p.idle + total busy p.threads ≡ length p.threads)
    × ((u : ℕ) → count u p.taken ≡ count u p.done + total (has u) p.threads)

count-append : (u : ℕ) (ts us : List ℕ) → count u (ts ++ us) ≡ count u ts + count u us
count-append u [] us = omega arith
count-append u (t ∷ ts) us = let r = count-append u ts us in omega (arith, r)

count-one : (u t : ℕ) (ts : List ℕ) → count u (ts ++ (t ∷ [])) ≡ count u ts + hit u t
count-one u t ts = let e = count-append u ts (t ∷ []) in omega (arith, e)

total-set_nth :
    (f : Position → ℕ) (i : ℕ) (q here : Position) (qs : List Position)
    → at qs i ≡ some here
    → total f (set_nth i q qs) + f here ≡ total f qs + f q
unfolding total set_nth at
total-set_nth f i q here [] h = absurd (cc)
total-set_nth f zero q here (p ∷ qs) h =
    let same : p ≡ here = cc in let e : f p ≡ f here = ap f same in omega (arith, e)
total-set_nth f (suc i) q here (p ∷ qs) h =
    let e = total-set_nth f i q here qs h in omega (arith, e)

length-set_nth : (i : ℕ) (q : Position) (qs : List Position) → length (set_nth i q qs) ≡ length qs
unfolding set_nth
length-set_nth i q [] = refl
length-set_nth zero q (p ∷ qs) = refl
length-set_nth (suc i) q (p ∷ qs) = ap suc (length-set_nth i q qs)

-- Each thread counts once at most.
busy_once : (q : Position) → busy q ≤ 1
busy_once testing = omega arith
busy_once entering = omega arith
busy_once dozing = omega arith
busy_once asleep = omega arith
busy_once (holding t) = omega arith
busy_once (working t) = omega arith
busy_once finished = omega arith
busy_once ended = omega arith

total-busy : (qs : List Position) → total busy qs ≤ length qs
unfolding total
total-busy [] = omega arith
total-busy (q ∷ qs) = let h = busy_once q in let r = total-busy qs in omega (arith, h, r)

total-busy_but :
    (i : ℕ) (here : Position) (qs : List Position)
    → at qs i ≡ some here
    → suc (total busy qs) ≤ length qs + busy here
unfolding total at
total-busy_but i here [] h = absurd (cc)
total-busy_but zero here (q ∷ qs) h =
    let same : q ≡ here = cc in
    let e : busy q ≡ busy here = ap busy same in let r = total-busy qs in omega (arith, e, r)
total-busy_but (suc i) here (q ∷ qs) h =
    let b = busy_once q in let r = total-busy_but i here qs h in omega (arith, b, r)

-- A step that moves a thread from a position to another, and the queue and the counts with it.
moved :
    (i : ℕ) (here q : Position) (p n : ThreadPool)
    → at p.threads i ≡ some here
    → n.threads ≡ p.threads
    → n.taken ++ n.tasks ≡ n.added
    → length n.taken + loaded here + length p.done ≡ length p.taken + loaded q + length n.done
    → n.idle + busy q ≡ p.idle + busy here
    → ((u : ℕ)
        → count u n.taken + has u here + count u p.done
          ≡ count u p.taken + has u q + count u n.done)
    → IsCounted p
    → IsCounted (record n { threads = set_nth i q n.threads })
moved i here q p n h same queue tasks idle each (_, k, l, m) =
    let a = total-set_nth loaded i q here p.threads h in
    let b = total-set_nth busy i q here p.threads h in
    let c = length-set_nth i q p.threads in
    rw same (
      queue,
      omega (arith, a, tasks, k),
      omega (arith, b, idle, l, c),
      λ u. let d = total-set_nth (has u) i q here p.threads h in omega (arith, d, each u, m u),
    )

takes-IsCounted :
    (i t : ℕ) (ts : List ℕ) (p : ThreadPool)
    → at p.threads i ≡ some entering
    → t ∷ ts ≡ p.tasks
    → IsCounted p
    → IsCounted (record p {
      tasks = ts;
      taken = p.taken ++ (t ∷ []);
      threads = set_nth i (holding t) p.threads;
    })
takes-IsCounted i t ts p h e c =
    moved i entering (holding t) p (record p { tasks = ts; taken = p.taken ++ (t ∷ []) }) h refl
      (append_assoc p.taken (t ∷ []) ts ∙ ap (λ (z : List ℕ). p.taken ++ z) e ∙ c.0)
      (omega (arith, length-append p.taken (t ∷ []))) refl
      (λ u. let e = count-one u t p.taken in omega (arith, e)) c

take-IsCounted :
    (i : ℕ) (p : ThreadPool)
    → at p.threads i ≡ some entering
    → IsCounted p
    → IsCounted (thread_step i entering p)
unfolding thread_step advance
take-IsCounted i p h c = looks p.running_state p.tasks refl
  where
    looks :
        (b : Bool) (ts : List ℕ)
        → ts ≡ p.tasks
        → IsCounted
            (let (q, next) = look_by b ts p in record next { threads = set_nth i q next.threads })
    looks true [] e =
        unfold look_by in moved i entering dozing p p h refl c.0 refl refl (λ u. refl) c
    looks false [] e =
        unfold look_by in moved i entering ended p p h refl c.0 refl refl (λ u. refl) c
    looks true (t ∷ ts) e = unfold look_by in takes-IsCounted i t ts p h e c
    looks false (t ∷ ts) e = unfold look_by in takes-IsCounted i t ts p h e c

thread-IsCounted :
    (i : ℕ) (here : Position) (p : ThreadPool)
    → at p.threads i ≡ some here
    → IsCounted p
    → IsCounted (thread_step i here p)
unfolding thread_step advance
thread-IsCounted i testing p h c = elim (Bool-cases p.running_state) [
  | inl y ↦ rw y (moved i testing entering p p h refl c.0 refl refl (λ u. refl) c)
  | inr m ↦ rw m (moved i testing ended p p h refl c.0 refl refl (λ u. refl) c)
]
thread-IsCounted i entering p h c = unfold thread_step advance in take-IsCounted i p h c
thread-IsCounted i dozing p h c = moved i dozing asleep p p h refl c.0 refl refl (λ u. refl) c
thread-IsCounted i asleep p h c = moved i asleep entering p p h refl c.0 refl refl (λ u. refl) c
thread-IsCounted i (holding t) p h c =
    let b = total-busy_but i (holding t) p.threads h in
    let l = c.2 in
    moved i (holding t) (working t) p (record p { idle = p.idle - 1 }) h refl c.0 refl
      (omega (arith, b, l)) (λ u. refl) c
thread-IsCounted i (working t) p h c =
    let e = length-append p.done (t ∷ []) in
    moved i (working t) finished p (record p { done = p.done ++ (t ∷ []) }) h refl c.0
      (omega (arith, e)) refl (λ u. let f = count-one u t p.done in omega (arith, f)) c
thread-IsCounted i finished p h c =
    moved i finished testing p (record p { idle = p.idle + 1 }) h refl c.0 refl (omega arith)
      (λ u. refl) c
thread-IsCounted i ended p h c = moved i ended ended p p h refl c.0 refl refl (λ u. refl) c

put-IsCounted : (t : ℕ) (p : ThreadPool) → IsCounted p → IsCounted (put_task t p)
unfolding put_task
put-IsCounted t p (queue, k, l, m) = (
  sym (append_assoc p.taken p.tasks (t ∷ [])) ∙ ap (λ (z : List ℕ). z ++ (t ∷ [])) queue,
  k,
  l,
  m,
)

add-IsCounted : (t : ℕ) (p q : ThreadPool) → add_task t p ≡ some q → IsCounted p → IsCounted q
unfolding add_task
add-IsCounted t p q e c = added p.running_state e
  where
    same_pool : {a b : ThreadPool} → some a ≡ some b → a ≡ b
    same_pool h = cc

    added : (b : Bool) → (if b then some (put_task t p) else none) ≡ some q → IsCounted q
    added true h = subst IsCounted (same_pool h) (put-IsCounted t p c)
    added false h = absurd (cc)

Step-IsCounted : (p q : ThreadPool) → Step p q → IsCounted p → IsCounted q
unfolding shut_down
Step-IsCounted _ _ (thread i here p h other) c = thread-IsCounted i here p h c
Step-IsCounted _ _ (locks i p h free) c = thread-IsCounted i entering p h c
Step-IsCounted _ _ (adds t p q e free) c = add-IsCounted t p q e c
Step-IsCounted _ _ (stops p) c = c

replicate-loaded : (n : ℕ) → total loaded (replicate n testing) ≡ 0
unfolding total replicate
replicate-loaded zero = refl
replicate-loaded (suc n) = let r = replicate-loaded n in omega (arith, r)

replicate-has : (u n : ℕ) → total (has u) (replicate n testing) ≡ 0
unfolding total replicate
replicate-has u zero = refl
replicate-has u (suc n) = let r = replicate-has u n in omega (arith, r)

replicate-busy : (n : ℕ) → total busy (replicate n testing) ≡ 0
unfolding total replicate
replicate-busy zero = refl
replicate-busy (suc n) = let r = replicate-busy n in omega (arith, r)

length-replicate : (n : ℕ) → length (replicate n testing) ≡ n
unfolding replicate
length-replicate zero = refl
length-replicate (suc n) = ap suc (length-replicate n)

new-IsCounted : (size : ℕ) → IsCounted (new_thread_pool size)
unfolding new_thread_pool
new-IsCounted size =
    let n = thread_count size in
    (
      refl,
      omega (arith, replicate-loaded n),
      omega (arith, replicate-busy n, length-replicate n),
      λ u. omega (arith, replicate-has u n),
    )

Steps-from : (p q : ThreadPool) → Steps p q → IsCounted p → IsCounted q
Steps-from _ _ (stay p) c = c
Steps-from _ _ (go p q r steps step) c = Step-IsCounted q r step (Steps-from p q steps c)

-- However the threads of a pool, the calls of `addTask` and the destructor are interleaved: the tasks
-- leave the queue in the order in which they were added, none lost and none twice; each task has been
-- taken just as often as it is done or in the hands of a thread; and `idlThrNum` is the number of
-- threads that are not busy with a task.
pub Steps-IsCounted : (size : ℕ) (p : ThreadPool) → Steps (new_thread_pool size) p → IsCounted p
Steps-IsCounted size p steps = Steps-from (new_thread_pool size) p steps (new-IsCounted size)
