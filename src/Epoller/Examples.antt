-- ===== src/Epoller/Examples.antt =====
-- Runs of the poller on concrete channels.
use adl_server.Base.{ℕ, ◌+◌, true, List, [], ◌∷◌, refl, arith}
use adl_server.Channel.{Ready, new_channel, nothing_ready}
use adl_server.Epoller.{
  Channels, Operation, new_epoller, run, enable_reading, enable_writing, disable_all, remove,
}
use adl_server.Epoller.Watched.{Watches, watched, wanted_by, run-Watches}

abbrev fresh : Channels
fresh a = new_channel a (a + 3)

fresh-Watches : Watches fresh new_epoller
unfolding watched wanted_by
fresh-Watches = record { legal = tt; wants = λ a. refl }

abbrev life : List (ℕ × Operation)
life =
    (0, enable_reading)
    ∷ (1, enable_reading)
    ∷ (0, enable_writing)
    ∷ (0, disable_all)
    ∷ (1, remove)
    ∷ (0, enable_reading)
    ∷ []

run-Watches_example : Watches (run life fresh new_epoller).0 (run life fresh new_epoller).1
run-Watches_example = run-Watches life fresh new_epoller (λ a b h. ground (arith, h)) fresh-Watches

abbrev readable_now : Ready
readable_now = record nothing_ready { input = true }
