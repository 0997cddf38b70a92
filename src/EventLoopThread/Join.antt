-- ===== src/EventLoopThread/Join.antt =====
-- A destructor that runs before the thread is in `loop`.
use adl_server.Base.{true, false, ◌⊎◌, inl, inr, ◌≡◌, refl, sym, ◌∙◌, subst}
use adl_server.EventLoopThread.{
  Worker, enters, runs, over, Owner, joins, LoopThread, work, CanWork, own, CanOwn,
}

-- The steps of the thread and its owner, where nobody else calls `quit`.
pub data Alone : LoopThread → LoopThread → Type 0 where
  rests : (s : LoopThread) → Alone s s
  works_on : (s t : LoopThread) → Alone s t → CanWork t.worker t → Alone s (work t.worker t)
  owns_on : (s t : LoopThread) → Alone s t → CanOwn t.owner t → Alone s (own t.owner t)

-- The owner waits for the thread, which is about to enter `loop`, or is in it and nothing ends it.
abbrev pub IsDoomed : LoopThread → Type 0
IsDoomed s = (s.owner ≡ joins) × ((s.worker ≡ enters) ⊎ ((s.worker ≡ runs) × (s.quit ≡ false)))

work-IsDoomed :
    (p : Worker) (s : LoopThread) → s.worker ≡ p → CanWork p s → IsDoomed s → IsDoomed (work p s)
unfolding work
work-IsDoomed p s h free (o, inl x) =
    let same : enters ≡ p = sym x ∙ h in subst (λ q. IsDoomed (work q s)) same (o, inr (refl, refl))
work-IsDoomed p s h free (o, inr (x, off)) =
    let same : p ≡ runs = sym h ∙ x in
    let on : s.quit ≡ true = subst (λ q. CanWork q s) same free in absurd (cc)

own-IsDoomed : (p : Owner) (s : LoopThread) → s.owner ≡ p → CanOwn p s → IsDoomed s → ⊥
own-IsDoomed p s h free (o, w) =
    let same : p ≡ joins = sym h ∙ o in
    let done : s.worker ≡ over = subst (λ q. CanOwn q s) same free in
    elim w [ inl x ↦ cc | inr (x, off) ↦ cc ]

-- Where the destructor has called `quit` and waits in `join` while the thread has handed its loop
-- over and has not entered `loop`: whatever the two do from then on, and unless somebody else calls
-- `quit`, the destructor stays in `join`, and the thread gets into `loop` and stays there.
pub never_joined :
    (s t : LoopThread)
    → s.owner ≡ joins
    → s.worker ≡ enters
    → Alone s t
    → (t.owner ≡ joins) × ((t.worker ≡ enters) ⊎ ((t.worker ≡ runs) × (t.quit ≡ false)))
never_joined s _ o w (rests _) = (o, inl w)
never_joined s _ o w (works_on _ t steps free) =
    work-IsDoomed t.worker t refl free (never_joined s t o w steps)
never_joined s _ o w (owns_on _ t steps free) =
    absurd (own-IsDoomed t.owner t refl free (never_joined s t o w steps))
