-- ===== src/EventLoop/Examples.antt =====
-- A loop that sleeps, is given a functor and told to quit by another thread, and goes on to its end.
use adl_server.Base.{false, [], ◌∷◌, ◌≡◌, refl, arith}
use adl_server.EventLoop.{
  Loop, new_loop, ended, enter_loop, test_quit, queue_in_loop, quit_loop, will_wake, push_functor,
  wakeup, wake_later, run_alone, enters, tests, queue_outside, quit_outside, wakes, Steps, stay, go,
}
use adl_server.EventLoop.Wakeup.{IsAwake, Steps-IsAwake}
use adl_server.EventLoop.Quit.{quit_ends}

abbrev asleep : Loop
asleep = test_quit (enter_loop new_loop)

abbrev given : Loop
given = wake_later (queue_in_loop false 7 asleep)

abbrev told : Loop
told = wake_later (quit_loop false given)

told-reached : Steps new_loop told
unfolding enter_loop test_quit queue_in_loop quit_loop will_wake push_functor wakeup wake_later
told-reached =
    go new_loop (quit_loop false given) told
      (go new_loop given (quit_loop false given)
        (go new_loop (queue_in_loop false 7 asleep) given
          (go new_loop asleep (queue_in_loop false 7 asleep)
            (go new_loop (enter_loop new_loop) asleep
              (go new_loop new_loop (enter_loop new_loop) (stay new_loop) (enters new_loop refl))
              (tests (enter_loop new_loop) refl))
            (queue_outside 7 asleep))
          (wakes (queue_in_loop false 7 asleep) (omega arith)))
        (quit_outside given))
      (wakes (quit_loop false given) (omega arith))

Steps-IsAwake_example : IsAwake told
Steps-IsAwake_example = Steps-IsAwake told told-reached

quit_ends_example :
    ((run_alone 5 told).phase ≡ ended)
    × ((run_alone 5 told).done ≡ 7 ∷ [])
    × ((run_alone 5 told).pending ≡ [])
unfolding enter_loop test_quit queue_in_loop quit_loop will_wake push_functor wakeup wake_later
quit_ends_example = quit_ends told told-reached (λ h. cc) refl refl
