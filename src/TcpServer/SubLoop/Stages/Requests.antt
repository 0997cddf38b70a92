-- ===== src/TcpServer/SubLoop/Stages/Requests.antt =====
-- What events and the user ask of a connection, at each stage.
use adl_server.Base.{
  ℕ, suc, Bool, true, false, ◌&&◌, if◌then◌else◌, Bool-cases, inl, inr, fault, ◌>>=◌, subst, sym,
  List, [], ◌∷◌, ◌++◌, Result, ok, ◌≡◌, refl, ap, ◌∙◌,
}
use adl_server.TcpConnection.{connecting, disconnecting}
use adl_server.TcpServer.SubLoop.{
  Kind, add_connect, establish, close_forced, SubLoop, set_at, queue, is_open, new_connection,
  shutdown, force_close, handle_close, event, dispatch_event, act,
}
use adl_server.TcpServer.SubLoop.Members.{set_at_same, set_at_other}
use adl_server.TcpServer.SubLoop.Stages.{
  Stage, unborn, waiting, entered, up, gone, half, down, forced, stage_view, view, view_eq, Moves,
  queue_same, queue_other, forced-append, forced_more, handle_close-Moves,
}

-- The request leads from a stage to another, which is not reached from outside.
abbrev pub Asks : ℕ → SubLoop → Result SubLoop → Stage → Type 0
Asks c l r p = (q : Stage) × Moves c [] l [] r q × (p ≡ unborn → q ≡ unborn)

stays :
    (c : ℕ) (l : SubLoop) (r : Result SubLoop) (p : Stage)
    → r ≡ ok l
    → view c [] l ≡ stage_view p
    → Asks c l r p
stays c l r p e v = (p, (l, e, v, λ d h. refl), λ h. h)

pub new_connection-Moves :
    (c : ℕ) (l : SubLoop)
    → view c [] l ≡ stage_view unborn
    → Moves c [] l [] (ok (new_connection c l)) waiting
unfolding new_connection
new_connection-Moves c l v = (
  new_connection c l,
  refl,
  view_eq
      (queue_same c establish [] (queue (c, add_connect) (begun))
        ∙ ap (λ (z : List Kind). z ++ (establish ∷ [])) (queue_same c add_connect [] begun)
        ∙ ap (λ (z : List Kind). (z ++ (add_connect ∷ [])) ++ (establish ∷ [])) (ap (λ z. z.0) v))
      (ap (λ z. z.1) v) (set_at_same c connecting l.state) (set_at_same c false l.watched),
  λ d h.
      view_eq
        (queue_other c d establish [] (queue (c, add_connect) begun) h
          ∙ queue_other c d add_connect [] begun h)
        refl (set_at_other c d connecting l.state h) (set_at_other c d false l.watched h),
)
  where
    begun : SubLoop
    begun = record l { state = set_at c connecting l.state; watched = set_at c false l.watched }

-- A close of a connection that listens.
close_watched :
    (c : ℕ) (p : Stage) (l : SubLoop)
    → view c [] l ≡ stage_view p
    → Asks c l (if l.watched c then handle_close c l else ok l) p
close_watched c unborn l v = stays c l _ unborn (rw (ap (λ z. z.3) v) refl) v
close_watched c waiting l v = stays c l _ waiting (rw (ap (λ z. z.3) v) refl) v
close_watched c entered l v = stays c l _ entered (rw (ap (λ z. z.3) v) refl) v
close_watched c gone l v = stays c l _ gone (rw (ap (λ z. z.3) v) refl) v
close_watched c (down n) l v = stays c l _ (down n) (rw (ap (λ z. z.3) v) refl) v
close_watched c up l v = (
  down 0,
  rw (ap (λ z. z.3) v) (handle_close-Moves c 0 [] l (ap (λ z. z.0) v) (ap (λ z. is_open z.2) v)),
  λ h. absurd (cc),
)
close_watched c (half n) l v = (
  down n,
  rw (ap (λ z. z.3) v) (handle_close-Moves c n [] l (ap (λ z. z.0) v) (ap (λ z. is_open z.2) v)),
  λ h. absurd (cc),
)

-- An event that does not close twice.
pub event-Asks :
    (c : ℕ) (hangup ends : Bool) (p : Stage) (l : SubLoop)
    → (hangup && ends) ≡ false
    → view c [] l ≡ stage_view p
    → Asks c l (act (event c hangup ends) l) p
unfolding act dispatch_event
event-Asks c true true p l once v = absurd (cc)
event-Asks c false true p l once v = close_watched c p l v
event-Asks c true false p l once v =
    subst (λ (r : Result SubLoop). Asks c l (if l.watched c then r else ok l) p)
      (sym (only (handle_close c l))) (close_watched c p l v)
  where
    only : (r : Result SubLoop) → (do m ← r; ok m) ≡ r
    only (ok m) = refl
    only (fault e) = refl
event-Asks c false false p l once v = stays c l _ p nothing v
  where
    nothing : (if l.watched c then ok l else ok l) ≡ ok l
    nothing = elim (Bool-cases (l.watched c)) [ inl y ↦ rw y refl | inr m ↦ rw m refl ]

-- A shutdown by the user.
pub shutdown-Asks :
    (c : ℕ) (p : Stage) (l : SubLoop) → view c [] l ≡ stage_view p → Asks c l (ok (shutdown c l)) p
unfolding shutdown
shutdown-Asks c unborn l v = stays c l _ unborn (rw (ap (λ z. z.2) v) refl) v
shutdown-Asks c waiting l v = stays c l _ waiting (rw (ap (λ z. z.2) v) refl) v
shutdown-Asks c entered l v = stays c l _ entered (rw (ap (λ z. z.2) v) refl) v
shutdown-Asks c gone l v = stays c l _ gone (rw (ap (λ z. z.2) v) refl) v
shutdown-Asks c (down n) l v = stays c l _ (down n) (rw (ap (λ z. z.2) v) refl) v
shutdown-Asks c (half n) l v = stays c l _ (half n) (rw (ap (λ z. z.2) v) refl) v
shutdown-Asks c up l v = (
  half 0,
  (
    record l { state = set_at c disconnecting l.state },
    rw (ap (λ z. z.2) v) refl,
    view_eq (ap (λ z. z.0) v) (ap (λ z. z.1) v) (set_at_same c disconnecting l.state)
        (ap (λ z. z.3) v),
    λ d h. view_eq refl refl (set_at_other c d disconnecting l.state h) refl,
  ),
  λ h. absurd (cc),
)

-- A close by the user of an open connection queues one more task.
closing-Moves :
    (c n : ℕ) (l : SubLoop)
    → view c [] l ≡ (forced n [], true, l.state c, true)
    → is_open (l.state c) ≡ true
    → Moves c [] l [] (ok (force_close c l)) (half (suc n))
unfolding force_close
closing-Moves c n l v opened = (
  queue (c, close_forced) (record l { state = set_at c disconnecting l.state }),
  rw opened refl,
  view_eq
      (queue_same c close_forced [] l
        ∙ ap (λ (z : List Kind). z ++ (close_forced ∷ [])) (ap (λ z. z.0) v)
        ∙ forced-append n [] (close_forced ∷ [])
        ∙ forced_more n)
      (ap (λ z. z.1) v) (set_at_same c disconnecting l.state) (ap (λ z. z.3) v),
  λ d h.
      view_eq (queue_other c d close_forced [] l h) refl (set_at_other c d disconnecting l.state h)
        refl,
)

pub force_close-Asks :
    (c : ℕ) (p : Stage) (l : SubLoop)
    → view c [] l ≡ stage_view p
    → Asks c l (ok (force_close c l)) p
unfolding force_close
force_close-Asks c unborn l v = stays c l _ unborn (rw (ap (λ z. z.2) v) refl) v
force_close-Asks c waiting l v = stays c l _ waiting (rw (ap (λ z. z.2) v) refl) v
force_close-Asks c entered l v = stays c l _ entered (rw (ap (λ z. z.2) v) refl) v
force_close-Asks c gone l v = stays c l _ gone (rw (ap (λ z. z.2) v) refl) v
force_close-Asks c (down n) l v = stays c l _ (down n) (rw (ap (λ z. z.2) v) refl) v
force_close-Asks c up l v = (
  half 1,
  closing-Moves c 0 l (view_eq (ap (λ z. z.0) v) (ap (λ z. z.1) v) refl (ap (λ z. z.3) v))
      (ap (λ z. is_open z.2) v),
  λ h. absurd (cc),
)
force_close-Asks c (half n) l v = (
  half (suc n),
  closing-Moves c n l (view_eq (ap (λ z. z.0) v) (ap (λ z. z.1) v) refl (ap (λ z. z.3) v))
      (ap (λ z. is_open z.2) v),
  λ h. absurd (cc),
)
