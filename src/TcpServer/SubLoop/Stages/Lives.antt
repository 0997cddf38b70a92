-- ===== src/TcpServer/SubLoop/Stages/Lives.antt =====
-- Every connection of a loop is at a stage of its life, whatever is asked of the loop.
use adl_server.Base.{ℕ, suc, ◌≤◌, false, ◌&&◌, List, [], ◌∷◌, Result, ok, ◌≡◌}
use adl_server.TcpServer.SubLoop.{is_member, Task, SubLoop, is_member, Action, accepted, event}
use adl_server.TcpServer.SubLoop.Stages.{Stage, unborn, stage_view, view}

-- Each connection is at a stage, and those from number n on are not there yet.
abbrev pub IsAt : ℕ → List Task → SubLoop → ℕ → Type 0
IsAt n ts l c = (p : Stage) × (view c ts l ≡ stage_view p) × (n ≤ c → p ≡ unborn)

abbrev pub Lives : ℕ → List Task → SubLoop → Type 0
Lives n ts l = (c : ℕ) → IsAt n ts l c

abbrev Keeps : ℕ → List Task → Result SubLoop → Type 0
Keeps n us r = (m : SubLoop) × (r ≡ ok m) × Lives n us m

-- New connections have numbers that no connection had before, and no event closes its connection
-- twice.
abbrev pub number_after : ℕ → Action → ℕ
number_after n (accepted c) = suc c
number_after n _ = n

abbrev pub IsAllowed : ℕ → Action → Type 0
IsAllowed n (accepted c) = n ≤ c
IsAllowed n (event c hangup ends) = (hangup && ends) ≡ false
IsAllowed n _ = Unit {0}

abbrev pub AreAllowed : ℕ → List Action → Type 0
AreAllowed n [] = Unit {0}
AreAllowed n (a ∷ rest) = IsAllowed n a × AreAllowed (number_after n a) rest
