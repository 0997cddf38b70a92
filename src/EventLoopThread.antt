-- ===== src/EventLoopThread.antt =====
-- src/net/EventLoopThread.cpp: an object that starts a thread with a loop. Its constructor waits
-- for the loop, and its destructor ends the loop and joins the thread. `user_quits` is a call of
-- `quit` by anyone who was given the loop; a pointer that is null is `loop ≡ false`.
-- `exiting_` is set and never read. The thread is started before the members behind `thread_` are
-- there: `astray` is set once it uses one of them too early, and anything may happen from then on.
pub mod Positions
pub mod Working
pub mod Handover
pub mod Join
mod Examples
use adl_server.Base.{Bool, true, false, ◌||◌, ◌≡◌}

-- The positions of `threadFunc`: before `callback_` is used; before the lock; before lines 18, 19 and 20; before `loop`; in
-- it; before the second lock; before the reset; at the end.
pub data Worker : Type 0 where
  calls begins makes inits notifies enters runs ends resets over : Worker

-- The positions of the constructor: before `mutex_`, `cond_` and `callback_` are built, where the
-- thread runs already; before line 30; before the lock; before the test of the
-- predicate; asleep; woken up. `constructed` is between constructor and destructor. Of the
-- destructor: before lines 6, 7 and 8; behind it. `terminated` is the end of the program, by
-- the destructor of a std::thread that was not joined or by a null pointer at line 7.
pub data Owner : Type 0 where
  builds looks locks tests asleep woken constructed exits quits joins gone terminated : Owner

-- Who holds `mutex_`.
pub data Holder : Type 0 where
  nobody the_worker the_owner : Holder

pub record LoopThread : Type 0 where
  pub loop : Bool
  pub is_ready : Bool
  pub quit : Bool
  pub astray : Bool
  pub holder : Holder
  pub worker : Worker
  pub owner : Owner

-- The thread was started by line 28.
abbrev pub new_loop_thread : LoopThread
new_loop_thread = record {
  loop = false;
  is_ready = false;
  quit = false;
  astray = false;
  holder = nobody;
  worker = calls;
  owner = builds;
}

-- `notify_one`.
unfoldable pub notified : Owner → Owner
notified asleep = woken
notified o = o

unfoldable pub is_building : Owner → Bool
is_building builds = true
is_building _ = false

-- The next step of the thread. The call of `callback_` uses a member that may not be built yet. The two locks need a free mutex, and `loop` ends where `quit_` is set.
unfoldable pub work : Worker → LoopThread → LoopThread
work calls s = record s { astray = s.astray || is_building s.owner; worker = begins }
work begins s = record s { holder = the_worker; worker = makes }
work makes s = record s { loop = true; worker = inits }
work inits s = record s { is_ready = true; worker = notifies }
work notifies s = record s { owner = notified s.owner; holder = nobody; worker = enters }
work enters s = record s { quit = false; worker = runs }
work runs s = record s { worker = ends }
work ends s = record s { holder = the_worker; worker = resets }
work resets s = record s { loop = false; holder = nobody; worker = over }
work over s = s

abbrev pub CanWork : Worker → LoopThread → Type 0
CanWork begins s = s.holder ≡ nobody
CanWork runs s = s.quit ≡ true
CanWork ends s = s.holder ≡ nobody
CanWork _ s = Unit {0}

-- Where the owner goes behind a look at the pointer.
unfoldable pub pick : Bool → Owner → Owner → Owner
pick true o p = o
pick false o p = p

-- The next step of the owner. A lock needs a free mutex, and `join` the end of the thread; a
-- condition variable may wake up at any time.
unfoldable pub own : Owner → LoopThread → LoopThread
own builds s = record s { owner = looks }
own looks s = record s { owner = pick s.loop constructed locks }
own locks s = record s { holder = the_owner; owner = tests }
own tests s = record s { holder = nobody; owner = pick s.loop constructed asleep }
own asleep s = record s { owner = woken }
own woken s = record s { holder = the_owner; owner = tests }
own constructed s = record s { owner = exits }
own exits s = record s { owner = pick s.loop quits terminated }
own quits s = record s { quit = true; owner = pick s.loop joins terminated }
own joins s = record s { owner = gone }
own gone s = s
own terminated s = s

abbrev pub CanOwn : Owner → LoopThread → Type 0
CanOwn locks s = s.holder ≡ nobody
CanOwn woken s = s.holder ≡ nobody
CanOwn joins s = s.worker ≡ over
CanOwn _ s = Unit {0}

-- The constructor is over.
abbrev pub is_constructed : Owner → Bool
is_constructed builds = false
is_constructed looks = false
is_constructed locks = false
is_constructed tests = false
is_constructed asleep = false
is_constructed woken = false
is_constructed _ = true

pub data Step : LoopThread → LoopThread → Type 0 where
  works : (s : LoopThread) → CanWork s.worker s → Step s (work s.worker s)
  owns : (s : LoopThread) → CanOwn s.owner s → Step s (own s.owner s)
  strays : (s t : LoopThread) → s.astray ≡ true → t.astray ≡ true → Step s t
  user_quits : (s : LoopThread) → is_constructed s.owner ≡ true → Step s (record s { quit = true })

pub data Steps : LoopThread → LoopThread → Type 0 where
  stay : (s : LoopThread) → Steps s s
  go : (s t u : LoopThread) → Steps s t → Step t u → Steps s u
