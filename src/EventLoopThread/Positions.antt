-- ===== src/EventLoopThread/Positions.antt =====
-- What holds of a loop thread at each position of the thread and its owner.
use adl_server.Base.{Bool, true, false, ◌⊎◌, inl, inr, ◌≡◌, refl}
use adl_server.EventLoopThread.{
  Worker, calls, begins, makes, inits, notifies, enters, runs, ends, resets, over, Owner, builds,
  is_building, looks, locks, tests, asleep, woken, constructed, exits, quits, joins, gone,
  terminated, Holder, nobody, the_worker, the_owner, LoopThread, new_loop_thread, is_constructed,
  notified,
}

-- The parts of the code that run under the lock.
abbrev pub works_locked : Worker → Bool
works_locked makes = true
works_locked inits = true
works_locked notifies = true
works_locked resets = true
works_locked _ = false

abbrev pub owns_locked : Owner → Bool
owns_locked tests = true
owns_locked _ = false

abbrev pub is_worker : Holder → Bool
is_worker the_worker = true
is_worker _ = false

abbrev pub is_owner : Holder → Bool
is_owner the_owner = true
is_owner _ = false

-- The thread has used none of the members yet.
abbrev pub is_calling : Worker → Bool
is_calling calls = true
is_calling _ = false

-- The pointer is set between the lines 18 and 24.
abbrev pub is_set : Worker → Bool
is_set calls = false
is_set begins = false
is_set makes = false
is_set over = false
is_set _ = true

-- Line 18 is done, and line 20.
abbrev pub has_made : Worker → Bool
has_made calls = false
has_made begins = false
has_made makes = false
has_made _ = true

abbrev pub has_notified : Worker → Bool
has_notified calls = false
has_notified begins = false
has_notified makes = false
has_notified inits = false
has_notified notifies = false
has_notified _ = true

abbrev pub has_inited : Worker → Bool
has_inited calls = false
has_inited begins = false
has_inited makes = false
has_inited inits = false
has_inited _ = true

abbrev pub sleeps : Owner → Bool
sleeps asleep = true
sleeps _ = false

-- Behind the end of `loop`.
abbrev pub is_late : Worker → Bool
is_late ends = true
is_late resets = true
is_late over = true
is_late _ = false

abbrev pub is_gone : Owner → Bool
is_gone gone = true
is_gone _ = false

-- Each holds the mutex just in its own parts; the pointer and the loop are as far as the thread has
-- come; an owner that sleeps is still to be notified, one that was constructed has a loop that was
-- made, and one that is gone a thread that is over; no loop is told to end, or ends, before the owner
-- is constructed; and the thread uses the members only where they are built.
pub record IsHandedOver (s : LoopThread) : Type 0 where
  pub built : is_calling s.worker ≡ false → is_building s.owner ≡ false
  pub held : works_locked s.worker ≡ is_worker s.holder
  pub owned : owns_locked s.owner ≡ is_owner s.holder
  pub set : s.loop ≡ is_set s.worker
  pub inited : s.is_ready ≡ has_inited s.worker
  pub sleep : sleeps s.owner ≡ true → has_notified s.worker ≡ false
  pub made : is_constructed s.owner ≡ true → has_made s.worker ≡ true
  pub quitter : s.quit ≡ true → is_constructed s.owner ≡ true
  pub late : is_late s.worker ≡ true → is_constructed s.owner ≡ true
  pub joined : is_gone s.owner ≡ true → s.worker ≡ over

pub new_loop_thread-IsHandedOver : IsHandedOver new_loop_thread
new_loop_thread-IsHandedOver = record {
  built = λ e. absurd (cc);
  held = refl;
  owned = refl;
  set = refl;
  inited = refl;
  sleep = λ e. refl;
  made = λ e. absurd (cc);
  quitter = λ e. absurd (cc);
  late = λ e. absurd (cc);
  joined = λ e. absurd (cc);
}

pub notified_cases :
    (o : Owner) → ((o ≡ asleep) × (notified o ≡ woken)) ⊎ ((sleeps o ≡ false) × (notified o ≡ o))
unfolding notified
notified_cases asleep = inl (refl, refl)
notified_cases builds = inr (refl, refl)
notified_cases looks = inr (refl, refl)
notified_cases locks = inr (refl, refl)
notified_cases tests = inr (refl, refl)
notified_cases woken = inr (refl, refl)
notified_cases constructed = inr (refl, refl)
notified_cases exits = inr (refl, refl)
notified_cases quits = inr (refl, refl)
notified_cases joins = inr (refl, refl)
notified_cases gone = inr (refl, refl)
notified_cases terminated = inr (refl, refl)

pub is_set-has_made : (w : Worker) → is_set w ≡ true → has_made w ≡ true
is_set-has_made calls e = absurd (cc)
is_set-has_made begins e = absurd (cc)
is_set-has_made makes e = absurd (cc)
is_set-has_made inits e = refl
is_set-has_made notifies e = refl
is_set-has_made enters e = refl
is_set-has_made runs e = refl
is_set-has_made ends e = refl
is_set-has_made resets e = refl
is_set-has_made over e = absurd (cc)

-- Where the pointer is null, no one is behind the notification but a thread whose loop has ended.
pub is_set-late : (w : Worker) → is_set w ≡ false → (has_notified w ≡ false) ⊎ (is_late w ≡ true)
is_set-late calls e = inl refl
is_set-late begins e = inl refl
is_set-late makes e = inl refl
is_set-late inits e = absurd (cc)
is_set-late notifies e = absurd (cc)
is_set-late enters e = absurd (cc)
is_set-late runs e = absurd (cc)
is_set-late ends e = absurd (cc)
is_set-late resets e = absurd (cc)
is_set-late over e = inr refl

pub unheld : (h : Holder) → true ≡ is_worker h → is_owner h ≡ is_owner nobody
unheld nobody e = refl
unheld the_worker e = refl
unheld the_owner e = absurd (cc)
