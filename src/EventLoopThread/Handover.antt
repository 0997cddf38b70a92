-- ===== src/EventLoopThread/Handover.antt =====
-- The loop is handed over from the thread to the owner.
use adl_server.Base.{Bool, true, false, ◌⊎◌, inl, inr, ◌≡◌, refl, sym, ap, ◌∙◌}
use adl_server.EventLoopThread.{
  over, Owner, builds, is_building, looks, locks, tests, asleep, woken, constructed, exits, quits,
  joins, gone, terminated, Holder, nobody, the_worker, the_owner, LoopThread, new_loop_thread,
  is_constructed, pick, own, CanOwn, Step, works, owns, strays, user_quits, Steps, stay, go,
}
use adl_server.EventLoopThread.Positions.{
  owns_locked, is_worker, is_owner, has_made, has_notified, sleeps, is_gone, IsHandedOver,
  new_loop_thread-IsHandedOver, is_set-has_made, is_set-late,
}
use adl_server.EventLoopThread.Working.{work-IsHandedOver, work-astray}

unowned : (h : Holder) → true ≡ is_owner h → is_worker h ≡ is_worker nobody
unowned nobody e = refl
unowned the_owner e = refl
unowned the_worker e = absurd (cc)

-- A step of the owner that leaves the thread as it is.
owner_moves :
    (p q : Owner) (h : Holder) (quit : Bool) (s : LoopThread)
    → s.owner ≡ p
    → is_building q ≡ false
    → owns_locked q ≡ is_owner h
    → is_worker s.holder ≡ is_worker h
    → (sleeps q ≡ true → has_notified s.worker ≡ false)
    → (is_constructed q ≡ true → has_made s.worker ≡ true)
    → (is_constructed p ≡ true → is_constructed q ≡ true)
    → (quit ≡ true → (s.quit ≡ true) ⊎ (is_constructed q ≡ true))
    → (is_gone q ≡ true → s.worker ≡ over)
    → IsHandedOver s
    → IsHandedOver (record s { quit = quit; holder = h; owner = q })
owner_moves p q h quit s at raised owned held sleep made kept asked joined a = record {
  built = λ e. raised;
  held = a.held ∙ held;
  owned = owned;
  set = a.set;
  inited = a.inited;
  sleep = sleep;
  made = made;
  quitter =
      λ e. elim (asked e) [ inl x ↦ kept (sym (ap is_constructed at) ∙ a.quitter x) | inr x ↦ x ];
  late = λ e. kept (sym (ap is_constructed at) ∙ a.late e);
  joined = joined;
}

module _ (s : LoopThread) (a : IsHandedOver s) where
  made_at : (p : Owner) → s.owner ≡ p → is_constructed p ≡ true → has_made s.worker ≡ true
  made_at p h e = a.made (ap is_constructed h ∙ e)

  set-made : s.loop ≡ true → has_made s.worker ≡ true
  set-made e = is_set-has_made s.worker (sym a.set ∙ e)

  free_worker : (p : Owner) → s.owner ≡ p → owns_locked p ≡ true → is_worker s.holder ≡ false
  free_worker p h e = unowned s.holder (sym (ap owns_locked h ∙ e) ∙ a.owned)

  -- A constructor that finds no loop sleeps before the notification.
  in_time : s.owner ≡ tests → s.loop ≡ false → has_notified s.worker ≡ false
  in_time h e = elim (is_set-late s.worker (sym a.set ∙ e)) [
    | inl x ↦ x
    | inr x ↦ let c = a.late x in absurd (cc)
  ]

  -- The owner looks at the pointer and lets go of the lock if it has it.
  looked :
      (p o q : Owner) (h : Holder) (quit : Bool)
      → s.owner ≡ p
      → is_building o ≡ false
      → is_building q ≡ false
      → is_worker s.holder ≡ is_worker h
      → owns_locked o ≡ is_owner h
      → owns_locked q ≡ is_owner h
      → is_constructed o ≡ true
      → sleeps o ≡ false
      → is_gone o ≡ false
      → is_gone q ≡ false
      → (s.loop ≡ false → sleeps q ≡ true → has_notified s.worker ≡ false)
      → (is_constructed p ≡ is_constructed q)
      → (quit ≡ true → (s.quit ≡ true) ⊎ (is_constructed q ≡ true))
      → IsHandedOver (record s { quit = quit; holder = h; owner = pick s.loop o q })
  unfolding pick
  looked p o q h quit at up1 up2 held owned1 owned2 made awake here1 here2 sleep same asked =
      by s.loop refl
    where
      by :
          (b : Bool)
          → s.loop ≡ b
          → IsHandedOver (record s { quit = quit; holder = h; owner = pick b o q })
      by true y =
          owner_moves p o h quit s at up1 owned1 held (λ e. absurd (cc)) (λ e. set-made y)
            (λ e. made) (λ e. inr made) (λ e. absurd (cc)) a
      by false n =
          owner_moves p q h quit s at up2 owned2 held (sleep n) (λ e. made_at p at (same ∙ e))
            (λ e. sym same ∙ e) asked (λ e. absurd (cc)) a

  own-IsHandedOver : (p : Owner) → s.owner ≡ p → CanOwn p s → IsHandedOver (own p s)
  unfolding own
  own-IsHandedOver builds h free =
      owner_moves builds looks s.holder s.quit s h (unfold is_building in refl)
        (sym (ap owns_locked h) ∙ a.owned) refl (λ e. absurd (cc)) (λ e. absurd (cc))
        (λ e. absurd (cc)) inl (λ e. absurd (cc)) a
  own-IsHandedOver looks h free =
      let owned = sym (ap owns_locked h) ∙ a.owned in
      looked looks constructed locks s.holder s.quit h (unfold is_building in refl)
        (unfold is_building in refl) refl owned owned refl refl refl refl (λ n e. absurd (cc)) refl
        inl
  own-IsHandedOver locks h free =
      owner_moves locks tests the_owner s.quit s h (unfold is_building in refl) refl
        (ap is_worker free) (λ e. absurd (cc)) (λ e. absurd (cc)) (λ e. absurd (cc)) inl
        (λ e. absurd (cc)) a
  own-IsHandedOver woken h free =
      owner_moves woken tests the_owner s.quit s h (unfold is_building in refl) refl
        (ap is_worker free) (λ e. absurd (cc)) (λ e. absurd (cc)) (λ e. absurd (cc)) inl
        (λ e. absurd (cc)) a
  own-IsHandedOver asleep h free =
      owner_moves asleep woken s.holder s.quit s h (unfold is_building in refl)
        (sym (ap owns_locked h) ∙ a.owned) refl (λ e. absurd (cc)) (λ e. absurd (cc))
        (λ e. absurd (cc)) inl (λ e. absurd (cc)) a
  own-IsHandedOver tests h free =
      looked tests constructed asleep nobody s.quit h (unfold is_building in refl)
        (unfold is_building in refl) (free_worker tests h refl) refl refl refl refl refl refl
        (λ n e. in_time h n) refl inl
  own-IsHandedOver constructed h free =
      owner_moves constructed exits s.holder s.quit s h (unfold is_building in refl)
        (sym (ap owns_locked h) ∙ a.owned) refl (λ e. absurd (cc)) (made_at constructed h)
        (λ e. refl) inl (λ e. absurd (cc)) a
  own-IsHandedOver exits h free =
      let owned = sym (ap owns_locked h) ∙ a.owned in
      looked exits quits terminated s.holder s.quit h (unfold is_building in refl)
        (unfold is_building in refl) refl owned owned refl refl refl refl (λ n e. absurd (cc)) refl
        inl
  own-IsHandedOver quits h free =
      let owned = sym (ap owns_locked h) ∙ a.owned in
      looked quits joins terminated s.holder true h (unfold is_building in refl)
        (unfold is_building in refl) refl owned owned refl refl refl refl (λ n e. absurd (cc)) refl
        (λ e. inr refl)
  own-IsHandedOver joins h free =
      owner_moves joins gone s.holder s.quit s h (unfold is_building in refl)
        (sym (ap owns_locked h) ∙ a.owned) refl (λ e. absurd (cc)) (made_at joins h) (λ e. refl) inl
        (λ e. free) a
  own-IsHandedOver gone h free = a
  own-IsHandedOver terminated h free = a

-- No step leads back from undefined behaviour.
own-astray : (p : Owner) (s : LoopThread) → (own p s).astray ≡ s.astray
unfolding own
own-astray builds s = refl
own-astray looks s = refl
own-astray locks s = refl
own-astray tests s = refl
own-astray asleep s = refl
own-astray woken s = refl
own-astray constructed s = refl
own-astray exits s = refl
own-astray quits s = refl
own-astray joins s = refl
own-astray gone s = refl
own-astray terminated s = refl

Step-astray : (s t : LoopThread) → Step s t → t.astray ≡ false → s.astray ≡ false
Step-astray s _ (works _ free) e = work-astray s.worker s e
Step-astray s _ (owns _ free) e = sym (own-astray s.owner s) ∙ e
Step-astray s t (strays _ _ on still) e = absurd (cc)
Step-astray s _ (user_quits _ h) e = e

Step-IsHandedOver :
    (s t : LoopThread) → Step s t → t.astray ≡ false → IsHandedOver s → IsHandedOver t
Step-IsHandedOver s _ (works _ free) on a = work-IsHandedOver s.worker s refl free on a
Step-IsHandedOver s _ (owns _ free) on a = own-IsHandedOver s a s.owner refl free
Step-IsHandedOver s t (strays _ _ was still) on a = absurd (cc)
Step-IsHandedOver s _ (user_quits _ h) on a = record {
  built = a.built;
  held = a.held;
  owned = a.owned;
  set = a.set;
  inited = a.inited;
  sleep = a.sleep;
  made = a.made;
  quitter = λ e. h;
  late = a.late;
  joined = a.joined;
}

-- However the thread and its owner are interleaved from the start of the thread on, and whoever
-- calls `quit` once the constructor is over, as long as the thread has not used `callback_` before
-- the constructor has built the members behind `thread_`, which is undefined: it uses them only
-- where they are built; the mutex is held just in the parts under the lock, by one of them; `loop_`
-- is set just between the lines 18 and 24; an owner that sleeps is still to be notified, so that it
-- does not sleep for ever; one whose constructor is over has a loop that was made; and one whose
-- destructor is over has a thread that is over.
pub Steps-IsHandedOver :
    (s : LoopThread) → Steps new_loop_thread s → s.astray ≡ false → IsHandedOver s
Steps-IsHandedOver _ (stay _) on = new_loop_thread-IsHandedOver
Steps-IsHandedOver _ (go _ s t steps step) on =
    Step-IsHandedOver s t step on (Steps-IsHandedOver s steps (Step-astray s t step on))
