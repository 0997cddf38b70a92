-- ===== src/ThreadPool/Examples.antt =====
-- Runs of a pool of one thread.
use adl_server.Base.{at, zero, suc, [], ◌∷◌, ◌≡◌, refl}
use adl_server.ThreadPool.{
  ThreadPool, ended, replicate, thread_count, new_thread_pool, Steps, stay, go, add_task, put_task,
  adds, thread, thread_step, testing, entering, holding, working, advance, look_by, set_nth, locks,
  IsFree,
}
use adl_server.ThreadPool.Counts.{IsCounted, Steps-IsCounted}
use adl_server.ThreadPool.Abandoned.{tasks_abandoned}

abbrev with_task : ThreadPool
with_task = put_task 5 (new_thread_pool 1)

with_task-IsFree : IsFree (new_thread_pool 1)
unfolding new_thread_pool thread_count replicate at
with_task-IsFree zero e = absurd (cc)
with_task-IsFree (suc i) e = absurd (cc)

-- A task is added; the thread goes to the lock, takes the task and does it.
abbrev at_lock : ThreadPool
at_lock = thread_step 0 testing with_task

abbrev with_taken : ThreadPool
with_taken = thread_step 0 entering at_lock

abbrev at_work : ThreadPool
at_work = thread_step 0 (holding 5) with_taken

abbrev with_done : ThreadPool
with_done = thread_step 0 (working 5) at_work

at_lock-IsFree : IsFree at_lock
unfolding new_thread_pool thread_count replicate at put_task thread_step advance set_nth
at_lock-IsFree zero e = absurd (cc)
at_lock-IsFree (suc i) e = absurd (cc)

short_run : Steps (new_thread_pool 1) with_done
unfolding new_thread_pool thread_count replicate at add_task put_task thread_step advance set_nth
    look_by
short_run =
    go (new_thread_pool 1) at_work with_done
      (go (new_thread_pool 1) with_taken at_work
        (go (new_thread_pool 1) at_lock with_taken
          (go (new_thread_pool 1) with_task at_lock
            (go (new_thread_pool 1) (new_thread_pool 1) with_task (stay (new_thread_pool 1))
              (adds 5 (new_thread_pool 1) with_task refl with_task-IsFree))
            (thread 0 testing with_task refl (λ e. absurd (cc))))
          (locks 0 at_lock refl at_lock-IsFree))
        (thread 0 (holding 5) with_taken refl (λ e. absurd (cc))))
      (thread 0 (working 5) at_work refl (λ e. absurd (cc)))

with_done-done : with_done.done ≡ 5 ∷ []
unfolding new_thread_pool thread_count replicate at add_task put_task thread_step advance set_nth
    look_by
with_done-done = refl

Steps-IsCounted_example : IsCounted with_done
Steps-IsCounted_example = Steps-IsCounted 1 with_done short_run

tasks_abandoned_example :
    (q : ThreadPool) × Steps (new_thread_pool 1) q
    × (q.threads ≡ replicate (thread_count 1) ended)
    × (q.tasks ≡ 5 ∷ 6 ∷ [])
    × (q.done ≡ [])
tasks_abandoned_example = tasks_abandoned 1 (5 ∷ 6 ∷ [])
