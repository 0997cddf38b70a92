-- ===== src/Singleton/Examples.antt =====
-- Two threads that both find no object; the one that takes the lock makes it.
use adl_server.Base.{ℕ, ◌≤◌, List, [], ◌∷◌, some, ◌≡◌, refl}
use adl_server.Singleton.{
  System, CanGo, returned, new_system, after_load, after_check, advance, update, thread_step, goes,
  Steps, stay, go,
}
use adl_server.Singleton.Once.{one_instance}

abbrev run : List ℕ → System → System
run [] s = s
run (i ∷ is) s = run is (thread_step i s)

abbrev both_made : System
both_made = run (0 ∷ 1 ∷ 0 ∷ 0 ∷ 0 ∷ 0 ∷ 0 ∷ 1 ∷ 1 ∷ 1 ∷ []) new_system

abbrev AreAllowed : List ℕ → System → Type 0
AreAllowed [] s = Unit {0}
AreAllowed (i ∷ is) s = CanGo (s.pc i) s.mem.owner × AreAllowed is (thread_step i s)

run-Steps :
    (is : List ℕ) (s : System) → Steps new_system s → AreAllowed is s → Steps new_system (run is s)
run-Steps [] s steps a = steps
run-Steps (i ∷ is) s steps (free, a) =
    run-Steps is (thread_step i s) (go new_system s (thread_step i s) steps (goes i s free)) a

both_made-Steps : Steps new_system both_made
unfolding thread_step advance update after_load after_check
both_made-Steps =
    run-Steps (0 ∷ 1 ∷ 0 ∷ 0 ∷ 0 ∷ 0 ∷ 0 ∷ 1 ∷ 1 ∷ 1 ∷ []) new_system (stay new_system)
      (tt, (tt, (refl, (tt, (tt, (tt, (tt, (refl, (tt, (tt, tt))))))))))

one_instance_example :
    (both_made.mem.built ≤ 1)
    × ((i p : ℕ)
        → both_made.pc i ≡ returned p
        → (p ≡ 0) × (both_made.mem.built ≡ 1) × (both_made.mem.instance ≡ some p))
one_instance_example = one_instance both_made both_made-Steps

-- The second thread returned the object of the first.
second_returned : both_made.pc 1 ≡ returned 0
unfolding thread_step advance update after_load after_check
second_returned = refl
