-- ===== src/ThreadPool.antt =====
-- src/base/threadPool.h: threads that take tasks from a queue. What a thread does under the lock is
-- one step; a thread that waits may wake at any time, as condition variables allow. The object has no
-- thread of its own: `addTask` and the destructor are called from outside.
pub mod Counts
pub mod Abandoned
mod Examples
use adl_server.Base.{
  Option, none, ℕ, zero, suc, ◌+◌, ◌-◌, ◌<◌, at, Bool, true, false, List, [], ◌∷◌, ◌++◌, ltb,
  if◌then◌else◌, some, ◌≡◌, ◌≢◌,
}

-- Where a thread is: before the test of its loop, before the lock, holding it and about to sleep,
-- asleep, with a task taken, running it, behind it, and at its end.
pub data Position : Type 0 where
  testing entering dozing asleep : Position
  holding working : ℕ → Position
  finished ended : Position

-- `taken` and `done` hold the tasks in the order in which they were taken and run, `added` those that
-- were ever added. A task is a number.
pub record ThreadPool : Type 0 where
  pub running_state : Bool
  pub idle : ℕ
  pub tasks : List ℕ
  pub threads : List Position
  pub added : List ℕ
  pub taken : List ℕ
  pub done : List ℕ

unfoldable pub replicate {ℓ} : {A : Type ℓ} → ℕ → A → List A
replicate zero x = []
replicate (suc n) x = x ∷ replicate n x

unfoldable pub set_nth : ℕ → Position → List Position → List Position
set_nth i p [] = []
set_nth zero p (q ∷ qs) = p ∷ qs
set_nth (suc i) p (q ∷ qs) = q ∷ set_nth i p qs

-- How many threads the constructor makes for a size.
unfoldable pub thread_count : ℕ → ℕ
thread_count size = if ltb size 1 then 1 else size

unfoldable pub new_thread_pool : ℕ → ThreadPool
new_thread_pool size = record {
  running_state = true;
  idle = thread_count size;
  tasks = [];
  threads = replicate (thread_count size) testing;
  added = [];
  taken = [];
  done = [];
}

-- Under the lock: the wait is over when the pool stops or a task is there.
unfoldable pub look_by : Bool → List ℕ → ThreadPool → Position × ThreadPool
look_by true [] p = (dozing, p)
look_by false [] p = (ended, p)
look_by _ (t ∷ ts) p = (holding t, record p { tasks = ts; taken = p.taken ++ (t ∷ []) })

-- The next step of a thread that is at a position.
unfoldable pub advance : Position → ThreadPool → Position × ThreadPool
advance testing p = (if p.running_state then entering else ended, p)
advance entering p = look_by p.running_state p.tasks p
advance dozing p = (asleep, p)
advance asleep p = (entering, p)
advance (holding t) p = (working t, record p { idle = p.idle - 1 })
advance (working t) p = (finished, record p { done = p.done ++ (t ∷ []) })
advance finished p = (testing, record p { idle = p.idle + 1 })
advance ended p = (ended, p)

unfoldable pub thread_step : ℕ → Position → ThreadPool → ThreadPool
thread_step i here p =
    let (q, next) = advance here p in record next { threads = set_nth i q next.threads }

unfoldable pub put_task : ℕ → ThreadPool → ThreadPool
put_task t p = record p { tasks = p.tasks ++ (t ∷ []); added = p.added ++ (t ∷ []) }

-- A pool that was stopped throws an exception. The test and the push are one step here.
unfoldable pub add_task : ℕ → ThreadPool → Option ThreadPool
add_task t p = if p.running_state then some (put_task t p) else none

-- The first line of the destructor; it then waits until all threads are at their end.
unfoldable pub shut_down : ThreadPool → ThreadPool
shut_down p = record p { running_state = false }

-- No thread holds the lock.
abbrev pub IsFree : ThreadPool → Type 0
IsFree p = (i : ℕ) → at p.threads i ≢ some dozing

pub data Step : ThreadPool → ThreadPool → Type 0 where
  thread :
      (i : ℕ) (here : Position) (p : ThreadPool)
      → at p.threads i ≡ some here
      → here ≢ entering
      → Step p (thread_step i here p)
  locks :
      (i : ℕ) (p : ThreadPool)
      → at p.threads i ≡ some entering
      → IsFree p
      → Step p (thread_step i entering p)
  adds : (t : ℕ) (p q : ThreadPool) → add_task t p ≡ some q → IsFree p → Step p q
  stops : (p : ThreadPool) → Step p (shut_down p)

pub data Steps : ThreadPool → ThreadPool → Type 0 where
  stay : (p : ThreadPool) → Steps p p
  go : (p q r : ThreadPool) → Steps p q → Step q r → Steps p r
