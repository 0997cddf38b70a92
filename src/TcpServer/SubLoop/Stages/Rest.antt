-- ===== src/TcpServer/SubLoop/Stages/Rest.antt =====
-- What a round leaves of the tasks of the connections.
use adl_server.Base.{
  Bool, true, false, List, [], ◌∷◌, ◌++◌, Bool-cases, inl, inr, Result, ok, fault, assert_failed,
  check, ◌>>=◌, ◌>>◌, ◌≡◌, refl, ap, subst, ℕ, zero, suc, ◌==◌,
}
use adl_server.TcpConnection.{is_connecting}
use adl_server.TcpServer.SubLoop.{
  Kind, add_connect, establish, close_forced, destroy, Task, SubLoop, is_open, handle_close,
  remove_connection, connect_established, connect_destroyed, run_task, run_tasks, run_pending,
}
use adl_server.TcpServer.SubLoop.Stages.{
  Stage, unborn, waiting, entered, up, gone, half, down, kinds_of, stage_view, view,
}

-- Only connections that were closed in this round have a task left, the last one.
abbrev pub IsRested : Stage → Type 0
IsRested waiting = ⊥
IsRested entered = ⊥
IsRested (half (suc n)) = ⊥
IsRested (down (suc n)) = ⊥
IsRested _ = Unit {0}

abbrev OnlyDestroy : List Kind → Type 0
OnlyDestroy [] = Unit {0}
OnlyDestroy (destroy ∷ ks) = OnlyDestroy ks
OnlyDestroy (_ ∷ ks) = ⊥

abbrev AreDestroys : List Task → Type 0
AreDestroys [] = Unit {0}
AreDestroys ((c, k) ∷ ts) = (k ≡ destroy) × AreDestroys ts

abbrev pending_of : Result SubLoop → List Task
pending_of (ok m) = m.pending
pending_of (fault why) = []

one_more : (c : ℕ) (ts : List Task) → AreDestroys ts → AreDestroys (ts ++ ((c, destroy) ∷ []))
one_more c [] h = (refl, tt)
one_more c ((d, k) ∷ ts) (e, h) = (e, one_more c ts h)

run_task-AreDestroys :
    (c : ℕ) (k : Kind) (l : SubLoop)
    → AreDestroys l.pending
    → AreDestroys (pending_of (run_task (c, k) l))
unfolding run_task handle_close remove_connection connect_established connect_destroyed
run_task-AreDestroys c add_connect l h = h
run_task-AreDestroys c establish l h = elim (Bool-cases (is_connecting (l.state c))) [
  | inl y ↦ rw y h
  | inr m ↦ rw m tt
]
run_task-AreDestroys c close_forced l h = elim (Bool-cases (is_open (l.state c))) [
  | inl y ↦ rw y (one_more c l.pending h)
  | inr m ↦ rw m h
]
run_task-AreDestroys c destroy l h = checked _ _ h
  where
    checked :
        (m : SubLoop) (b : Bool)
        → AreDestroys m.pending
        → AreDestroys (pending_of (check b assert_failed >> ok m))
    checked m true g = g
    checked m false g = tt

bound :
    (next : SubLoop → Result SubLoop) (r : Result SubLoop)
    → ((m : SubLoop) → AreDestroys m.pending → AreDestroys (pending_of (next m)))
    → AreDestroys (pending_of r)
    → AreDestroys (pending_of (r >>= next))
bound next (ok m) more h = more m h
bound next (fault why) more h = tt

run_tasks-AreDestroys :
    (ts : List Task) (l : SubLoop)
    → AreDestroys l.pending
    → AreDestroys (pending_of (run_tasks ts l))
unfolding run_tasks
run_tasks-AreDestroys [] l h = h
run_tasks-AreDestroys ((c, k) ∷ ts) l h =
    bound (run_tasks ts) (run_task (c, k) l) (λ m g. run_tasks-AreDestroys ts m g)
      (run_task-AreDestroys c k l h)

kinds_of-OnlyDestroy : (c : ℕ) (ts : List Task) → AreDestroys ts → OnlyDestroy (kinds_of c ts)
kinds_of-OnlyDestroy c [] h = tt
kinds_of-OnlyDestroy c ((d, k) ∷ ts) (e, h) = elim (Bool-cases (c == d)) [
  | inl y ↦ rw (y, e) (kinds_of-OnlyDestroy c ts h)
  | inr m ↦ rw m (kinds_of-OnlyDestroy c ts h)
]

stage-IsRested : (p : Stage) → OnlyDestroy (stage_view p).0 → IsRested p
stage-IsRested unborn h = tt
stage-IsRested waiting h = h
stage-IsRested entered h = h
stage-IsRested up h = tt
stage-IsRested gone h = tt
stage-IsRested (half zero) h = tt
stage-IsRested (half (suc n)) h = h
stage-IsRested (down zero) h = tt
stage-IsRested (down (suc n)) h = h

-- Behind a round.
pub run_pending-IsRested :
    (l m : SubLoop) (c : ℕ) (p : Stage)
    → run_pending l ≡ ok m
    → view c [] m ≡ stage_view p
    → IsRested p
unfolding run_pending
run_pending-IsRested l m c p e v =
    let left : AreDestroys m.pending =
      subst (λ r. AreDestroys (pending_of r)) e
        (run_tasks-AreDestroys l.pending (record l { pending = [] }) tt) in
    stage-IsRested p (subst OnlyDestroy (ap (λ z. z.0) v) (kinds_of-OnlyDestroy c m.pending left))
