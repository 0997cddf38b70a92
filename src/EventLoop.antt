-- ===== src/EventLoop.antt =====
-- src/net/EventLoop.cpp: the functors that are queued in a loop, the event descriptor that wakes the
-- loop's thread, and the flag that ends it. A functor is a number; a functor that queues others while
-- it runs is a step of its own, and so is each of the two writes of a thread that is not the loop's.
pub mod Wakeup
pub mod Quit
pub mod Setup
mod Examples
use adl_server.Base.{
  ℕ, zero, suc, ◌+◌, ◌-◌, ◌<◌, Bool, true, false, List, [], ◌∷◌, ◌++◌, ltb, if◌then◌else◌, ◌≡◌,
}

-- Where the thread is: before `loop`; before the test of `quit_`; in epoll_wait; with the active
-- channels; in `doPendingFunctors` behind the swap; behind the end of `loop`.
pub data Phase : Type 0 where
  starting testing polling handling calling ended : Phase

-- `wake` is the count of the event descriptor, and `waking` the number of other threads that have
-- queued a functor or set `quit_` and have not written to it yet. `functors` is the local vector of
-- `doPendingFunctors`; `done` holds the functors that were called and `queued` all that ever were
-- queued.
pub record Loop : Type 0 where
  pub pending : List ℕ
  pub is_calling : Bool
  pub quit : Bool
  pub wake : ℕ
  pub waking : ℕ
  pub functors : List ℕ
  pub phase : Phase
  pub done : List ℕ
  pub queued : List ℕ

abbrev pub new_loop : Loop
new_loop = record {
  pending = [];
  is_calling = false;
  quit = false;
  wake = 0;
  waking = 0;
  functors = [];
  phase = starting;
  done = [];
  queued = [];
}

unfoldable pub wakeup : Loop → Loop
wakeup l = record l { wake = l.wake + 1 }

-- The write of a thread that is still to come, and that write.
unfoldable pub will_wake : Loop → Loop
will_wake l = record l { waking = l.waking + 1 }

unfoldable pub wake_later : Loop → Loop
wake_later l = wakeup (record l { waking = l.waking - 1 })

-- The part of `queueInLoop` under the lock.
unfoldable pub push_functor : ℕ → Loop → Loop
push_functor f l = record l { pending = l.pending ++ (f ∷ []); queued = l.queued ++ (f ∷ []) }

-- `queueInLoop(cb)`, on the thread of the loop or on another one.
unfoldable pub queue_in_loop : Bool → ℕ → Loop → Loop
queue_in_loop true f l = if l.is_calling then wakeup (push_functor f l) else push_functor f l
queue_in_loop false f l = will_wake (push_functor f l)

-- `quit()`, on the thread of the loop or on another one.
unfoldable pub quit_loop : Bool → Loop → Loop
quit_loop true l = record l { quit = true }
quit_loop false l = will_wake (record l { quit = true })

-- The beginning of `loop`, and the test of its `while`.
unfoldable pub enter_loop : Loop → Loop
enter_loop l = record l { quit = false; phase = testing }

unfoldable pub test_quit : Loop → Loop
test_quit l = record l { phase = if l.quit then ended else polling }

-- `handleRead`: a read of the event descriptor sets its count to 0.
unfoldable pub handle_read : Loop → Loop
handle_read l = record l { wake = 0 }

-- The beginning of `doPendingFunctors`.
unfoldable pub swap_pending : Loop → Loop
swap_pending l = record l { is_calling = true; functors = l.pending; pending = []; phase = calling }

-- One call of its loop.
unfoldable pub call_functor : ℕ → List ℕ → Loop → Loop
call_functor f fs l = record l { functors = fs; done = l.done ++ (f ∷ []) }

-- Its end.
unfoldable pub finish_pending : Loop → Loop
finish_pending l = record l { is_calling = false; phase = testing }

-- The phases in which handlers and functors run.
abbrev pub runs_code : Phase → Bool
runs_code handling = true
runs_code calling = true
runs_code _ = false

-- The steps of a loop: other threads may queue and quit at any time, the loop's own thread in its
-- handlers and functors.
pub data Step : Loop → Loop → Type 0 where
  queue_outside : (f : ℕ) (l : Loop) → Step l (queue_in_loop false f l)
  quit_outside : (l : Loop) → Step l (quit_loop false l)
  wakes : (l : Loop) → 0 < l.waking → Step l (wake_later l)
  queue_inside : (f : ℕ) (l : Loop) → runs_code l.phase ≡ true → Step l (queue_in_loop true f l)
  quit_inside : (l : Loop) → runs_code l.phase ≡ true → Step l (quit_loop true l)
  enters : (l : Loop) → l.phase ≡ starting → Step l (enter_loop l)
  tests : (l : Loop) → l.phase ≡ testing → Step l (test_quit l)
  poll_returns : (l : Loop) → l.phase ≡ polling → Step l (record l { phase = handling })
  read_wakeup : (l : Loop) → l.phase ≡ handling → Step l (handle_read l)
  begin_pending : (l : Loop) → l.phase ≡ handling → Step l (swap_pending l)
  call_next :
      (f : ℕ) (fs : List ℕ) (l : Loop)
      → l.phase ≡ calling
      → l.functors ≡ f ∷ fs
      → Step l (call_functor f fs l)
  end_pending : (l : Loop) → l.phase ≡ calling → l.functors ≡ [] → Step l (finish_pending l)

pub data Steps : Loop → Loop → Type 0 where
  stay : (l : Loop) → Steps l l
  go : (l m n : Loop) → Steps l m → Step m n → Steps l n

-- What the thread does next where no other thread does anything and no channel but that of the event
-- descriptor is active: it sleeps while the count of the event descriptor is 0.
unfoldable pub next_call : List ℕ → Loop → Loop
next_call [] l = finish_pending l
next_call (f ∷ fs) l = call_functor f fs l

unfoldable pub own_step : Phase → Loop → Loop
own_step starting l = enter_loop l
own_step testing l = test_quit l
own_step polling l = if ltb 0 l.wake then record l { phase = handling } else l
own_step handling l = swap_pending (handle_read l)
own_step calling l = next_call l.functors l
own_step ended l = l

unfoldable pub run_alone : ℕ → Loop → Loop
run_alone zero l = l
run_alone (suc n) l = run_alone n (own_step l.phase l)
