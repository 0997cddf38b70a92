-- ===== src/TcpServer/SubLoop/Stages/Tasks.antt =====
-- The tasks of a connection, each at the stage at which it runs.
use adl_server.Base.{ℕ, zero, suc, true, false, List, [], ◌∷◌, ◌++◌, ◌≡◌, ◌≢◌, refl, sym, ap, ◌∙◌}
use adl_server.TcpConnection.{disconnected, connecting, connected, disconnecting}
use adl_server.TcpServer.SubLoop.{
  Kind, add_connect, establish, close_forced, destroy, Task, SubLoop, is_member, insert, set_at,
  is_open, connect_established, connect_destroyed, run_task,
}
use adl_server.TcpServer.SubLoop.Members.{
  other, itself, is_member-insert, is_member-insert_other, set_at_same, set_at_other,
}
use adl_server.TcpServer.SubLoop.Stages.{
  Stage, unborn, waiting, entered, up, gone, half, down, kinds_of, forced, stage_view, view,
  view_eq, Moves, handle_close-Moves,
}

-- The first task is the connection's own, or not.
head_same : (c : ℕ) (k : Kind) (ts : List Task) → kinds_of c ((c, k) ∷ ts) ≡ k ∷ kinds_of c ts
head_same c k ts = rw (itself c) refl

head_other :
    (c d : ℕ) (k : Kind) (ts : List Task) → d ≢ c → kinds_of d ts ≡ kinds_of d ((c, k) ∷ ts)
head_other c d k ts h = rw (other d c h) refl

add-Moves :
    (c : ℕ) (ts : List Task) (l : SubLoop)
    → kinds_of c (ts ++ l.pending) ≡ establish ∷ []
    → l.state c ≡ connecting
    → l.watched c ≡ false
    → Moves c ((c, add_connect) ∷ ts) l ts (run_task (c, add_connect) l) entered
unfolding run_task
add-Moves c ts l tasks s w = (
  record l { connect_set = insert c l.connect_set },
  refl,
  view_eq tasks (is_member-insert c l.connect_set) s w,
  λ d h.
      view_eq (head_other c d add_connect (ts ++ l.pending) h)
        (is_member-insert_other c d l.connect_set h) refl refl,
)

establish-Moves :
    (c : ℕ) (ts : List Task) (l : SubLoop)
    → kinds_of c (ts ++ l.pending) ≡ []
    → is_member c l.connect_set ≡ true
    → l.state c ≡ connecting
    → Moves c ((c, establish) ∷ ts) l ts (run_task (c, establish) l) up
unfolding run_task connect_established
establish-Moves c ts l tasks set s = (
  record l { state = set_at c connected l.state; watched = set_at c true l.watched },
  rw s refl,
  view_eq tasks set (set_at_same c connected l.state) (set_at_same c true l.watched),
  λ d h.
      view_eq (head_other c d establish (ts ++ l.pending) h) refl
        (set_at_other c d connected l.state h) (set_at_other c d true l.watched h),
)

close_forced-Moves :
    (c n : ℕ) (ts : List Task) (l : SubLoop)
    → kinds_of c (ts ++ l.pending) ≡ forced n []
    → l.state c ≡ disconnecting
    → Moves c ((c, close_forced) ∷ ts) l ts (run_task (c, close_forced) l) (down n)
unfolding run_task
close_forced-Moves c n ts l tasks s =
    let opened : is_open (l.state c) ≡ true = rw s refl in
    let (m, e, mine, others) = handle_close-Moves c n ts l tasks opened in
    (
      m,
      rw opened e,
      mine,
      λ d h. others d h ∙ view_eq (head_other c d close_forced (ts ++ l.pending) h) refl refl refl,
    )

late-Moves :
    (c n : ℕ) (ts : List Task) (l : SubLoop)
    → kinds_of c (ts ++ l.pending) ≡ forced n (destroy ∷ [])
    → is_member c l.connect_set ≡ false
    → l.state c ≡ disconnected
    → l.watched c ≡ false
    → Moves c ((c, close_forced) ∷ ts) l ts (run_task (c, close_forced) l) (down n)
unfolding run_task
late-Moves c n ts l tasks set s w = (
  l,
  rw s refl,
  view_eq tasks set s w,
  λ d h. view_eq (head_other c d close_forced (ts ++ l.pending) h) refl refl refl,
)

destroy-Moves :
    (c : ℕ) (ts : List Task) (l : SubLoop)
    → kinds_of c (ts ++ l.pending) ≡ []
    → is_member c l.connect_set ≡ false
    → l.state c ≡ disconnected
    → Moves c ((c, destroy) ∷ ts) l ts (run_task (c, destroy) l) gone
unfolding run_task connect_destroyed
destroy-Moves c ts l tasks set s = (
  record l { watched = set_at c false l.watched },
  rw (s, set) (rw s refl),
  view_eq tasks set s (set_at_same c false l.watched),
  λ d h.
      view_eq (head_other c d destroy (ts ++ l.pending) h) refl refl
        (set_at_other c d false l.watched h),
)

same_head : {j k : Kind} {js ks : List Kind} → ◌≡◌ {A = List Kind} (j ∷ js) (k ∷ ks) → j ≡ k
same_head h = cc

same_tail : {j k : Kind} {js ks : List Kind} → ◌≡◌ {A = List Kind} (j ∷ js) (k ∷ ks) → js ≡ ks
same_tail h = cc

-- The first task of a loop finds its connection at a stage where it may run.
pub run_task-Moves :
    (c : ℕ) (p : Stage) (k : Kind) (ts : List Task) (l : SubLoop)
    → view c ((c, k) ∷ ts) l ≡ stage_view p
    → (p ≢ unborn) × ((q : Stage) × Moves c ((c, k) ∷ ts) l ts (run_task (c, k) l) q)
run_task-Moves c p k ts l v =
    cases p k (sym (head_same c k (ts ++ l.pending)) ∙ ap (λ z. z.0) v) (ap (λ z. z.1) v)
      (ap (λ z. z.2) v) (ap (λ z. z.3) v)
  where
    cases :
        (p : Stage) (k : Kind)
        → k ∷ kinds_of c (ts ++ l.pending) ≡ (stage_view p).0
        → is_member c l.connect_set ≡ (stage_view p).1
        → l.state c ≡ (stage_view p).2
        → l.watched c ≡ (stage_view p).3
        → (p ≢ unborn) × ((q : Stage) × Moves c ((c, k) ∷ ts) l ts (run_task (c, k) l) q)
    cases unborn k h i s w = absurd (cc)
    cases up k h i s w = absurd (cc)
    cases gone k h i s w = absurd (cc)
    cases (half zero) k h i s w = absurd (cc)
    cases waiting k h i s w =
        let e = same_head h in
        (λ u. absurd (cc), (entered, rw e (add-Moves c ts l (same_tail h) s w)))
    cases entered k h i s w =
        let e = same_head h in
        (λ u. absurd (cc), (up, rw e (establish-Moves c ts l (same_tail h) i s)))
    cases (half (suc n)) k h i s w =
        let e = same_head h in
        (λ u. absurd (cc), (down n, rw e (close_forced-Moves c n ts l (same_tail h) s)))
    cases (down zero) k h i s w =
        let e = same_head h in
        (λ u. absurd (cc), (gone, rw e (destroy-Moves c ts l (same_tail h) i s)))
    cases (down (suc n)) k h i s w =
        let e = same_head h in
        (λ u. absurd (cc), (down n, rw e (late-Moves c n ts l (same_tail h) i s w)))
