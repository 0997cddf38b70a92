-- ===== src/EventLoopThread/Working.antt =====
-- The steps of the thread keep what holds.
use adl_server.Base.{Bool, true, false, ◌||◌, Bool-cases, inl, inr, ◌≡◌, refl, sym, ap, ◌∙◌}
use adl_server.EventLoopThread.{
  Worker, calls, is_building, begins, makes, inits, notifies, enters, runs, ends, resets, over,
  Owner, asleep, woken, Holder, nobody, the_worker, LoopThread, is_constructed, notified, work,
  CanWork,
}
use adl_server.EventLoopThread.Positions.{
  is_calling, works_locked, owns_locked, is_worker, is_owner, is_set, has_made, has_notified,
  has_inited, sleeps, is_late, is_gone, IsHandedOver, notified_cases, unheld,
}

-- A step of the thread that leaves the owner as it is.
worker_moves :
    (p q : Worker) (h : Holder) (loop ready quit stray : Bool) (s : LoopThread)
    → s.worker ≡ p
    → (is_calling q ≡ false → is_building s.owner ≡ false)
    → works_locked q ≡ is_worker h
    → is_owner s.holder ≡ is_owner h
    → loop ≡ is_set q
    → ready ≡ has_inited q
    → (has_notified q ≡ true → has_notified p ≡ true)
    → (has_made p ≡ true → has_made q ≡ true)
    → (quit ≡ true → s.quit ≡ true)
    → (is_late q ≡ true → is_constructed s.owner ≡ true)
    → (p ≡ over → q ≡ over)
    → IsHandedOver s
    → IsHandedOver (record {
      loop = loop;
      is_ready = ready;
      quit = quit;
      astray = stray;
      holder = h;
      worker = q;
      owner = s.owner;
    })
worker_moves p q h loop ready quit stray s at uses held owned set inited not_yet made asked late end
      a =
    record {
      built = uses;
      held = held;
      owned = a.owned ∙ owned;
      set = set;
      inited = inited;
      sleep = λ e. elim (Bool-cases (has_notified q)) [
        | inl y ↦ let before = not_yet y in let b = a.sleep e in absurd (cc)
        | inr n ↦ n
      ];
      made = λ e. made (sym (ap has_made at) ∙ a.made e);
      quitter = λ e. a.quitter (asked e);
      late = late;
      joined = λ e. end (sym at ∙ a.joined e);
    }

pub work-IsHandedOver :
    (p : Worker) (s : LoopThread)
    → s.worker ≡ p
    → CanWork p s
    → (work p s).astray ≡ false
    → IsHandedOver s
    → IsHandedOver (work p s)
unfolding work
work-IsHandedOver calls s h free on a =
    worker_moves calls begins s.holder s.loop s.is_ready s.quit (s.astray || is_building s.owner) s
      h (λ e. right s.astray (is_building s.owner) on) (sym (ap works_locked h) ∙ a.held) refl
      (a.set ∙ ap is_set h) (a.inited ∙ ap has_inited h) (λ e. absurd (cc)) (λ e. absurd (cc))
      (λ e. e) (λ e. absurd (cc)) (λ e. absurd (cc)) a
  where
    right : (b c : Bool) → (b || c) ≡ false → c ≡ false
    right false c e = e
    right true c e = absurd (cc)
work-IsHandedOver begins s h free on a =
    worker_moves begins makes the_worker s.loop s.is_ready s.quit s.astray s h
      (λ e. a.built (ap is_calling h)) refl (ap is_owner free) (a.set ∙ ap is_set h)
      (a.inited ∙ ap has_inited h) (λ e. absurd (cc)) (λ e. absurd (cc)) (λ e. e) (λ e. absurd (cc))
      (λ e. absurd (cc)) a
work-IsHandedOver makes s h free on a =
    worker_moves makes inits s.holder true s.is_ready s.quit s.astray s h
      (λ e. a.built (ap is_calling h)) (sym (ap works_locked h) ∙ a.held) refl refl
      (a.inited ∙ ap has_inited h) (λ e. absurd (cc)) (λ e. refl) (λ e. e) (λ e. absurd (cc))
      (λ e. absurd (cc)) a
work-IsHandedOver inits s h free on a =
    worker_moves inits notifies s.holder s.loop true s.quit s.astray s h
      (λ e. a.built (ap is_calling h)) (sym (ap works_locked h) ∙ a.held) refl (a.set ∙ ap is_set h)
      refl (λ e. absurd (cc)) (λ e. refl) (λ e. e) (λ e. absurd (cc)) (λ e. absurd (cc)) a
work-IsHandedOver enters s h free on a =
    worker_moves enters runs s.holder s.loop s.is_ready false s.astray s h
      (λ e. a.built (ap is_calling h)) (sym (ap works_locked h) ∙ a.held) refl (a.set ∙ ap is_set h)
      (a.inited ∙ ap has_inited h) (λ e. refl) (λ e. refl) (λ e. absurd (cc)) (λ e. absurd (cc))
      (λ e. absurd (cc)) a
work-IsHandedOver runs s h free on a =
    worker_moves runs ends s.holder s.loop s.is_ready s.quit s.astray s h
      (λ e. a.built (ap is_calling h)) (sym (ap works_locked h) ∙ a.held) refl (a.set ∙ ap is_set h)
      (a.inited ∙ ap has_inited h) (λ e. refl) (λ e. refl) (λ e. e) (λ e. a.quitter free)
      (λ e. absurd (cc)) a
work-IsHandedOver ends s h free on a =
    worker_moves ends resets the_worker s.loop s.is_ready s.quit s.astray s h
      (λ e. a.built (ap is_calling h)) refl (ap is_owner free) (a.set ∙ ap is_set h)
      (a.inited ∙ ap has_inited h) (λ e. refl) (λ e. refl) (λ e. e) (λ e. a.late (ap is_late h))
      (λ e. absurd (cc)) a
work-IsHandedOver resets s h free on a =
    worker_moves resets over nobody false s.is_ready s.quit s.astray s h
      (λ e. a.built (ap is_calling h)) refl (unheld s.holder held) refl (a.inited ∙ ap has_inited h)
      (λ e. refl) (λ e. refl) (λ e. e) (λ e. a.late (ap is_late h)) (λ e. refl) a
  where
    held : true ≡ is_worker s.holder
    held = sym (ap works_locked h) ∙ a.held
work-IsHandedOver over s h free on a = a
work-IsHandedOver notifies s h free on a =
    let held : true ≡ is_worker s.holder = sym (ap works_locked h) ∙ a.held in
    let free_owner = unheld s.holder held in
    record {
      built = λ e. told is_building (unfold is_building in refl) ∙ a.built (ap is_calling h);
      held = refl;
      owned = told owns_locked refl ∙ a.owned ∙ free_owner;
      set = a.set ∙ ap is_set h;
      inited = a.inited ∙ ap has_inited h;
      sleep = λ e. absurd (let z = awake in cc);
      made = λ e. refl;
      quitter = λ e. told is_constructed refl ∙ a.quitter e;
      late = λ e. absurd (cc);
      joined = λ e. let z = a.joined (sym (told is_gone refl) ∙ e) in absurd (cc);
    }
  where
    awake : sleeps (notified s.owner) ≡ false
    awake = elim (notified_cases s.owner) [ inl x ↦ ap sleeps x.1 | inr x ↦ ap sleeps x.1 ∙ x.0 ]

    told : (f : Owner → Bool) → f woken ≡ f asleep → f (notified s.owner) ≡ f s.owner
    told f same = elim (notified_cases s.owner) [
      | inl x ↦ ap f x.1 ∙ same ∙ sym (ap f x.0)
      | inr x ↦ ap f x.1
    ]

pub work-astray : (p : Worker) (s : LoopThread) → (work p s).astray ≡ false → s.astray ≡ false
unfolding work
work-astray calls s e = left s.astray (is_building s.owner) e
  where
    left : (b c : Bool) → (b || c) ≡ false → b ≡ false
    left false c e = refl
    left true c e = absurd (cc)
work-astray begins s e = e
work-astray makes s e = e
work-astray inits s e = e
work-astray notifies s e = e
work-astray enters s e = e
work-astray runs s e = e
work-astray ends s e = e
work-astray resets s e = e
work-astray over s e = e
