-- ===== src/BlockingQueue/Examples.antt =====
-- A queue of two elements, of which the third `put` has to wait.
use adl_server.Base.{ℕ, List, [], ◌∷◌, ◌≡◌, refl, arith}
use adl_server.BlockingQueue.{new_bounded, is_full, put, take, take_by}
use adl_server.BlockingQueue.Fifo.{
  Action, puts, takes, act, act_all, after_put, after_take, accepted, IsFifo, act_all-IsFifo,
}

abbrev busy : List (Action ℕ)
busy = puts 1 ∷ puts 2 ∷ puts 3 ∷ takes ∷ puts 4 ∷ []

busy_accepted : accepted busy ([], new_bounded 2) ≡ 1 ∷ 2 ∷ 4 ∷ []
unfolding accepted act after_put after_take is_full put take take_by
busy_accepted = refl

act_all-IsFifo_example :
    IsFifo
      ([], new_bounded 2)
      (act_all busy ([], new_bounded 2))
      (accepted busy ([], new_bounded 2))
act_all-IsFifo_example = act_all-IsFifo busy ([], new_bounded 2) (omega arith)
