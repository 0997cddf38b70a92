-- ===== src/EventLoop/Wakeup.antt =====
-- A functor that is queued is never left behind while the loop sleeps, nor is a call of `quit`.
use adl_server.Base.{
  ℕ, ◌+◌, ◌<◌, Bool, true, false, List, [], ◌∷◌, ◌++◌, append-nil, append_assoc, ◌≡◌, ◌≢◌, refl,
  sym, ap, ◌∙◌, Bool-cases, inl, inr, arith,
}
use adl_server.EventLoop.{
  Phase, starting, testing, polling, handling, calling, ended, Loop, new_loop, wakeup, will_wake,
  wake_later, push_functor, queue_in_loop, quit_loop, enter_loop, test_quit, handle_read,
  swap_pending, call_functor, finish_pending, runs_code, Step, queue_outside, quit_outside, wakes,
  queue_inside, quit_inside, enters, tests, poll_returns, read_wakeup, begin_pending, call_next,
  end_pending, Steps, stay, go,
}

abbrev pub in_call : Phase → Bool
in_call calling = true
in_call _ = false

-- Where functors are pending and the thread will not look at them before it sleeps, or where it
-- sleeps though `quit_` is set, the event descriptor is readable or a thread is about to write to it;
-- every functor that was queued was called, is about to be, or is pending, in this order.
pub record IsAwake (l : Loop) : Type 0 where
  pub woken : l.phase ≢ handling → l.pending ≢ [] → 0 < l.wake + l.waking
  pub ends : l.phase ≡ polling → l.quit ≡ true → 0 < l.wake + l.waking
  pub flag : l.is_calling ≡ in_call l.phase
  pub idle : l.phase ≢ calling → l.functors ≡ []
  pub order : l.done ++ (l.functors ++ l.pending) ≡ l.queued

new_loop-IsAwake : IsAwake new_loop
new_loop-IsAwake = record {
  woken = λ h n. absurd (n refl);
  ends = λ h e. absurd (cc);
  flag = refl;
  idle = λ h. refl;
  order = refl;
}

snoc_order :
    (d f p q : List ℕ) (x : ℕ) → d ++ (f ++ p) ≡ q → d ++ (f ++ (p ++ (x ∷ []))) ≡ q ++ (x ∷ [])
snoc_order d f p q x h =
    ap (λ (z : List ℕ). d ++ z) (sym (append_assoc f p (x ∷ [])))
    ∙ sym (append_assoc d (f ++ p) (x ∷ []))
    ∙ ap (λ (z : List ℕ). z ++ (x ∷ [])) h

-- The thread runs handlers or functors.
calls : (p : Phase) → runs_code p ≡ true → p ≢ handling → in_call p ≡ true
calls starting h k = absurd (cc)
calls testing h k = absurd (cc)
calls polling h k = absurd (cc)
calls handling h k = absurd (k refl)
calls calling h k = refl
calls ended h k = absurd (cc)

runs-polling : (p : Phase) → runs_code p ≡ true → p ≢ polling
runs-polling p h e = let f : runs_code p ≡ false = ap runs_code e in cc

outside-IsAwake : (f : ℕ) (l : Loop) → IsAwake l → IsAwake (queue_in_loop false f l)
unfolding queue_in_loop will_wake push_functor
outside-IsAwake f l a = record {
  woken = λ h n. omega arith;
  ends = λ h e. omega arith;
  flag = a.flag;
  idle = a.idle;
  order = snoc_order l.done l.functors l.pending l.queued f a.order;
}

inside-IsAwake :
    (f : ℕ) (l : Loop) → runs_code l.phase ≡ true → IsAwake l → IsAwake (queue_in_loop true f l)
unfolding queue_in_loop wakeup push_functor
inside-IsAwake f l inside a = elim (Bool-cases l.is_calling) [
  | inl y ↦ rw y (record {
    woken = λ h n. omega arith;
    ends = λ h e. omega arith;
    flag = sym y ∙ a.flag;
    idle = a.idle;
    order = snoc_order l.done l.functors l.pending l.queued f a.order;
  })
  | inr n ↦ rw n (record {
    woken = λ h k. let up = calls l.phase inside h in let flag = a.flag in absurd (cc);
    ends = λ h e. absurd (runs-polling l.phase inside h);
    flag = sym n ∙ a.flag;
    idle = a.idle;
    order = snoc_order l.done l.functors l.pending l.queued f a.order;
  })
]

-- The thread moves on between phases of which none is `calling`, and nothing is lost.
moved-IsAwake :
    (p : Phase) (q : Bool) (l : Loop)
    → in_call l.phase ≡ false
    → in_call p ≡ false
    → (p ≢ handling → l.phase ≢ handling)
    → (p ≡ polling → q ≡ false)
    → IsAwake l
    → IsAwake (record l { phase = p; quit = q })
moved-IsAwake p q l from to same off a = record {
  woken = λ h n. a.woken (same h) n;
  ends = λ h e. let z = off h in absurd (cc);
  flag = a.flag ∙ from ∙ sym to;
  idle = λ h. a.idle (λ e. let c : in_call l.phase ≡ true = ap in_call e in absurd (cc));
  order = a.order;
}

not_calling : {p q : Phase} → p ≡ q → in_call q ≡ false → in_call p ≡ false
not_calling e h = ap in_call e ∙ h

away : {p q : Phase} → p ≡ q → q ≢ handling → p ≢ handling
away e h k = h (sym e ∙ k)

test_quit-IsAwake : (l : Loop) → l.phase ≡ testing → IsAwake l → IsAwake (test_quit l)
unfolding test_quit
test_quit-IsAwake l h a = elim (Bool-cases l.quit) [
  | inl y ↦ rw y (
      moved-IsAwake ended true l (not_calling h refl) refl (λ k. away h (λ e. cc))
        (λ e. absurd (cc)) a)
  | inr n ↦ rw n (
      moved-IsAwake polling false l (not_calling h refl) refl (λ k. away h (λ e. cc)) (λ e. refl) a)
]

pub Step-IsAwake : (l m : Loop) → Step l m → IsAwake l → IsAwake m
unfolding quit_loop will_wake wake_later wakeup enter_loop handle_read swap_pending call_functor
    finish_pending
Step-IsAwake l _ (queue_outside f _) a = outside-IsAwake f l a
Step-IsAwake l _ (quit_outside _) a = record {
  woken = λ h n. omega arith;
  ends = λ h e. omega arith;
  flag = a.flag;
  idle = a.idle;
  order = a.order;
}
Step-IsAwake l _ (wakes _ some_left) a = record {
  woken = λ h n. omega arith;
  ends = λ h e. omega arith;
  flag = a.flag;
  idle = a.idle;
  order = a.order;
}
Step-IsAwake l _ (queue_inside f _ h) a = inside-IsAwake f l h a
Step-IsAwake l _ (quit_inside _ h) a = record {
  woken = a.woken;
  ends = λ k e. absurd (runs-polling l.phase h k);
  flag = a.flag;
  idle = a.idle;
  order = a.order;
}
Step-IsAwake l _ (enters _ h) a =
    moved-IsAwake testing false l (not_calling h refl) refl (λ k. away h (λ e. cc)) (λ e. refl) a
Step-IsAwake l _ (tests _ h) a = test_quit-IsAwake l h a
Step-IsAwake l _ (poll_returns _ h) a =
    moved-IsAwake handling l.quit l (not_calling h refl) refl (λ k. absurd (k refl))
      (λ e. absurd (cc)) a
Step-IsAwake l _ (read_wakeup _ h) a = record {
  woken = λ k n. absurd (k h);
  ends = λ k e. let z = sym h ∙ k in absurd (cc);
  flag = a.flag;
  idle = a.idle;
  order = a.order;
}
Step-IsAwake l _ (begin_pending _ h) a =
    let none_left = a.idle (λ e. let z = sym h ∙ e in cc) in
    record {
      woken = λ k n. absurd (n refl);
      ends = λ k e. absurd (cc);
      flag = refl;
      idle = λ k. absurd (k refl);
      order =
          ap (λ (z : List ℕ). l.done ++ z) (append-nil l.pending)
          ∙ ap (λ (z : List ℕ). l.done ++ (z ++ l.pending)) (sym none_left)
          ∙ a.order;
    }
Step-IsAwake l _ (call_next f fs _ h e) a = record {
  woken = a.woken;
  ends = a.ends;
  flag = a.flag;
  idle = λ k. absurd (k h);
  order =
      append_assoc l.done (f ∷ []) (fs ++ l.pending)
      ∙ ap (λ (z : List ℕ). l.done ++ (z ++ l.pending)) (sym e)
      ∙ a.order;
}
Step-IsAwake l _ (end_pending _ h e) a = record {
  woken = λ k n. a.woken (away h (λ q. cc)) n;
  ends = λ k z. absurd (cc);
  flag = refl;
  idle = λ k. e;
  order = a.order;
}

-- In every state that a loop reaches, however its own thread and others queue functors and call
-- `quit`: where functors are pending and the thread sleeps in epoll_wait or goes there, and where it
-- sleeps there while `quit_` is set, the event descriptor is readable, or another thread is just about
-- to write to it, so that it wakes up; and the functors that were called, then those to be called in
-- this round, then those pending, are all that were queued, in order.
pub Steps-IsAwake : (l : Loop) → Steps new_loop l → IsAwake l
Steps-IsAwake _ (stay _) = new_loop-IsAwake
Steps-IsAwake _ (go _ m n s t) = Step-IsAwake m n t (Steps-IsAwake m s)
