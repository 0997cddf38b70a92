-- ===== src/EventLoopThread/Examples.antt =====
-- An owner that gets a loop before it was initialised, and one that destroys the object at once.
use adl_server.Base.{Bool, true, false, List, [], ◌∷◌, ◌⊎◌, ◌≡◌, refl}
use adl_server.EventLoopThread.{
  enters, runs, constructed, joins, LoopThread, is_building, new_loop_thread, notified, pick, work,
  CanWork, own, CanOwn, works, owns, Steps, stay, go,
}
use adl_server.EventLoopThread.Positions.{IsHandedOver}
use adl_server.EventLoopThread.Handover.{Steps-IsHandedOver}
use adl_server.EventLoopThread.Join.{rests, works_on, never_joined}

-- `true` is a step of the thread, `false` one of the owner.
abbrev run : List Bool → LoopThread → LoopThread
run [] s = s
run (true ∷ bs) s = run bs (work s.worker s)
run (false ∷ bs) s = run bs (own s.owner s)

abbrev AreAllowed : List Bool → LoopThread → Type 0
AreAllowed [] s = Unit {0}
AreAllowed (true ∷ bs) s = CanWork s.worker s × AreAllowed bs (work s.worker s)
AreAllowed (false ∷ bs) s = CanOwn s.owner s × AreAllowed bs (own s.owner s)

run-Steps :
    (bs : List Bool) (s : LoopThread)
    → Steps new_loop_thread s
    → AreAllowed bs s
    → Steps new_loop_thread (run bs s)
run-Steps [] s steps a = steps
run-Steps (true ∷ bs) s steps (free, a) =
    run-Steps bs (work s.worker s) (go new_loop_thread s (work s.worker s) steps (works s free)) a
run-Steps (false ∷ bs) s steps (free, a) =
    run-Steps bs (own s.owner s) (go new_loop_thread s (own s.owner s) steps (owns s free)) a

-- The look without the lock comes between the lines 18 and 19.
abbrev early : LoopThread
early = run (false ∷ true ∷ true ∷ true ∷ false ∷ []) new_loop_thread

early-Steps : Steps new_loop_thread early
unfolding work own pick is_building
early-Steps =
    run-Steps (false ∷ true ∷ true ∷ true ∷ false ∷ []) new_loop_thread (stay new_loop_thread)
      (tt, (tt, (refl, (tt, (tt, tt)))))

early_unready : (early.owner ≡ constructed) × (early.is_ready ≡ false)
unfolding work own pick is_building
early_unready = (refl, refl)

early-astray : early.astray ≡ false
unfolding work own pick is_building
early-astray = refl

-- The thread runs before the members are built.
abbrev too_early : LoopThread
too_early = run (true ∷ []) new_loop_thread

too_early-astray : Steps new_loop_thread too_early × (too_early.astray ≡ true)
unfolding work is_building
too_early-astray = (run-Steps (true ∷ []) new_loop_thread (stay new_loop_thread) (tt, tt), refl)

Steps-IsHandedOver_example : IsHandedOver early
Steps-IsHandedOver_example = Steps-IsHandedOver early early-Steps early-astray

-- The owner is through its destructor up to the join before the thread is in `loop`.
abbrev hasty : LoopThread
hasty =
    run (false ∷ true ∷ true ∷ true ∷ true ∷ true ∷ false ∷ false ∷ false ∷ false ∷ [])
      new_loop_thread

hasty-Steps : Steps new_loop_thread hasty
unfolding work own pick notified
hasty-Steps =
    run-Steps (false ∷ true ∷ true ∷ true ∷ true ∷ true ∷ false ∷ false ∷ false ∷ false ∷ [])
      new_loop_thread (stay new_loop_thread)
      (tt, (tt, (refl, (tt, (tt, (tt, (tt, (tt, (tt, (tt, tt))))))))))

never_joined_example :
    ((work hasty.worker hasty).owner ≡ joins)
    × (((work hasty.worker hasty).worker ≡ enters)
        ⊎ (((work hasty.worker hasty).worker ≡ runs) × ((work hasty.worker hasty).quit ≡ false)))
unfolding work own pick notified
never_joined_example =
    never_joined hasty (work hasty.worker hasty) refl refl (works_on hasty hasty (rests hasty) tt)
