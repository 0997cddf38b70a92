-- ===== src/Coro/Examples.antt =====
-- Two messages that are echoed, three short sends, and a loop with one event.
use adl_server.Base.{
  ℕ, zero, suc, List, [], ◌∷◌, map, Bytes, codes, some, none, Option, ok, fault, out_of_bounds, inl,
  inr, ◌≡◌, refl, arith,
}
use adl_server.Coro.Echo.{got, took, all_sent, send_data, send_message, echo, joined, echo_lem}
use adl_server.Coro.Rounds.{new_poller, run_rounds, starves}

abbrev words : List Bytes
words = codes "hello" ∷ codes "you" ∷ []

echo_lem_example : echo (map got words) (took 2 ∷ took 3 ∷ took 3 ∷ []) ≡ ok (joined words)
echo_lem_example =
    echo_lem words (took 2 ∷ took 3 ∷ took 3 ∷ [])
      (took 3 ∷ [], ([], tt, omega arith, inl refl), omega arith, inr (2, omega arith, refl))

third_repeats :
    send_message (codes "hello") (took 1 ∷ took 2 ∷ took 2 ∷ []) ≡ ok (codes "helll", all_sent, [])
unfolding send_message send_data
third_repeats = refl

-- One event in the first call, and no call without room gives one.
abbrev one_event : ℕ → ℕ → Option ℕ
one_event zero (suc room) = some 1
one_event (suc k) room = none
one_event _ zero = none

no_room : (k : ℕ) → one_event k 0 ≡ none
no_room zero = refl
no_room (suc k) = refl

starves_example : run_rounds one_event 9 0 new_poller ≡ fault out_of_bounds
starves_example = starves one_event 0 1 7 new_poller no_room refl (omega arith) (omega arith)
