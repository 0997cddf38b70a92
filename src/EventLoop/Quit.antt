-- ===== src/EventLoop/Quit.antt =====
-- The end of a loop whose `quit` was called.
use adl_server.Base.{
  ℕ, zero, suc, ◌+◌, ◌≤◌, ◌<◌, true, false, List, [], ◌∷◌, ◌++◌, length, append-nil, append_assoc,
  lt→ltb, ◌≡◌, ◌≢◌, refl, sym, ap, ◌∙◌, subst, arith,
}
use adl_server.EventLoop.{
  Phase, starting, testing, polling, handling, calling, ended, Loop, new_loop, test_quit,
  handle_read, swap_pending, call_functor, finish_pending, Steps, next_call, own_step, run_alone,
}
use adl_server.EventLoop.Wakeup.{IsAwake, Steps-IsAwake}

-- The pending functors that are called, and those that are not, where `quit_` is set in a phase.
abbrev pub served : Phase → List ℕ → List ℕ
served polling p = p
served handling p = p
served _ p = []

abbrev pub left_behind : Phase → List ℕ → List ℕ
left_behind polling p = []
left_behind handling p = []
left_behind _ p = p

-- The loop is at its end with these functors called and these pending.
abbrev EndsWith : List ℕ → List ℕ → Loop → Type 0
EndsWith done pending m = (m.phase ≡ ended) × (m.done ≡ done) × (m.pending ≡ pending)

ended-run : (n : ℕ) (l : Loop) → l.phase ≡ ended → EndsWith l.done l.pending (run_alone n l)
unfolding run_alone
ended-run zero l h = (h, refl, refl)
ended-run (suc n) l h =
    let same : own_step l.phase l ≡ l = unfold own_step in rw h refl in
    subst (λ m. EndsWith l.done l.pending (run_alone n m)) (sym same) (ended-run n l h)

testing-run :
    (n : ℕ) (l : Loop)
    → 1 ≤ n
    → l.phase ≡ testing
    → l.quit ≡ true
    → EndsWith l.done l.pending (run_alone n l)
unfolding run_alone
testing-run zero l f h q = absurd (omega arith)
testing-run (suc n) l f h q =
    let next : own_step l.phase l ≡ record l { phase = ended } =
      unfold own_step test_quit in rw (h, q) refl in
    subst (λ m. EndsWith l.done l.pending (run_alone n m)) (sym next)
      (ended-run n (record l { phase = ended }) refl)

calling-run :
    (n : ℕ) (fs : List ℕ) (l : Loop)
    → 2 + length fs ≤ n
    → l.phase ≡ calling
    → l.quit ≡ true
    → l.functors ≡ fs
    → EndsWith (l.done ++ fs) l.pending (run_alone n l)
unfolding run_alone
calling-run zero fs l f h q e = absurd (omega arith)
calling-run (suc n) [] l f h q e =
    let m : Loop = record l { is_calling = false; phase = testing } in
    let next : own_step l.phase l ≡ m =
      unfold own_step next_call finish_pending in rw (h, e) refl in
    let (a, b, c) = testing-run n m (omega arith) refl q in
    subst (λ m. EndsWith (l.done ++ []) l.pending (run_alone n m)) (sym next)
      (a, b ∙ sym (append-nil l.done), c)
calling-run (suc n) (x ∷ fs) l f h q e =
    let m : Loop = record l { functors = fs; done = l.done ++ (x ∷ []) } in
    let next : own_step l.phase l ≡ m = unfold own_step next_call call_functor in rw (h, e) refl in
    let (a, b, c) = calling-run n fs m (omega arith) h q refl in
    subst (λ m. EndsWith (l.done ++ (x ∷ fs)) l.pending (run_alone n m)) (sym next)
      (a, b ∙ append_assoc l.done (x ∷ []) fs, c)

handling-run :
    (n : ℕ) (l : Loop)
    → 3 + length l.pending ≤ n
    → l.phase ≡ handling
    → l.quit ≡ true
    → EndsWith (l.done ++ l.pending) [] (run_alone n l)
unfolding run_alone
handling-run zero l f h q = absurd (omega arith)
handling-run (suc n) l f h q =
    let m : Loop = record l {
      wake = 0;
      is_calling = true;
      functors = l.pending;
      pending = [];
      phase = calling;
    } in
    let next : own_step l.phase l ≡ m = unfold own_step handle_read swap_pending in rw h refl in
    subst (λ m. EndsWith (l.done ++ l.pending) [] (run_alone n m)) (sym next)
      (calling-run n l.pending m (omega arith) refl q refl)

polling-run :
    (n : ℕ) (l : Loop)
    → 4 + length l.pending ≤ n
    → l.phase ≡ polling
    → 0 < l.wake
    → l.quit ≡ true
    → EndsWith (l.done ++ l.pending) [] (run_alone n l)
unfolding run_alone
polling-run zero l f h w q = absurd (omega arith)
polling-run (suc n) l f h w q =
    let next : own_step l.phase l ≡ record l { phase = handling } =
      unfold own_step in rw (h, lt→ltb 0 l.wake w) refl in
    subst (λ m. EndsWith (l.done ++ l.pending) [] (run_alone n m)) (sym next)
      (handling-run n (record l { phase = handling }) (omega arith) refl q)

-- The steps that the end takes at most.
abbrev pub steps_left : Loop → ℕ
steps_left l = 4 + (length l.functors + length l.pending)

ends_by :
    (p : Phase) (l : Loop)
    → l.phase ≡ p
    → p ≢ starting
    → l.quit ≡ true
    → l.waking ≡ 0
    → IsAwake l
    → EndsWith
        (l.done ++ (l.functors ++ served p l.pending))
        (left_behind p l.pending)
        (run_alone (steps_left l) l)
ends_by starting l h k q w a = absurd (k refl)
ends_by testing l h k q w a =
    let none_left = a.idle (λ e. let z = sym h ∙ e in cc) in
    let (x, y, z) = testing-run (steps_left l) l (omega arith) h q in
    (x, y ∙ sym (append-nil l.done) ∙ ap (λ (f : List ℕ). l.done ++ (f ++ [])) (sym none_left), z)
ends_by polling l h k q w a =
    let none_left = a.idle (λ e. let z = sym h ∙ e in cc) in
    let (x, y, z) = polling-run (steps_left l) l (omega arith) h (omega (arith, a.ends h q)) q in
    (x, y ∙ ap (λ (f : List ℕ). l.done ++ (f ++ l.pending)) (sym none_left), z)
ends_by handling l h k q w a =
    let none_left = a.idle (λ e. let z = sym h ∙ e in cc) in
    let (x, y, z) = handling-run (steps_left l) l (omega arith) h q in
    (x, y ∙ ap (λ (f : List ℕ). l.done ++ (f ++ l.pending)) (sym none_left), z)
ends_by calling l h k q w a =
    let (x, y, z) = calling-run (steps_left l) l.functors l (omega arith) h q refl in
    (x, y ∙ ap (λ (f : List ℕ). l.done ++ f) (sym (append-nil l.functors)), z)
ends_by ended l h k q w a =
    let none_left = a.idle (λ e. let z = sym h ∙ e in cc) in
    let (x, y, z) = ended-run (steps_left l) l h in
    (x, y ∙ sym (append-nil l.done) ∙ ap (λ (f : List ℕ). l.done ++ (f ++ [])) (sym none_left), z)

-- In every state behind the beginning of `loop` that a loop reaches, where `quit_` is set and no other
-- thread is just about to write to the event descriptor: the thread, left alone, is at the end of
-- `loop` after at most four steps more than there are functors, wherever it was, and does not sleep
-- on; the functors of this round are called, and those that are pending too where the thread was in
-- epoll_wait or handled events; else those that are pending are never called.
pub quit_ends :
    (l : Loop)
    → Steps new_loop l
    → l.phase ≢ starting
    → l.quit ≡ true
    → l.waking ≡ 0
    → EndsWith
        (l.done ++ (l.functors ++ served l.phase l.pending))
        (left_behind l.phase l.pending)
        (run_alone (steps_left l) l)
quit_ends l steps k q w = ends_by l.phase l refl k q w (Steps-IsAwake l steps)
