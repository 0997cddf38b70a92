-- ===== src/Http/Parser/Loop.antt =====
-- One round of the parser's loops.
use adl_server.Base.{ℕ, suc, ◌≡◌, ap, true, false, ◌==◌, Result, ok}
use adl_server.Http.Parser.{Parser, Round, resume, loop}

-- Before the end of the data a round is made, and what it returns decides how the loop goes on.
pub loop_step :
    (round : Parser → Result Round) (fuel : ℕ) (p : Parser) {r : Result Round}
    → (p.cur == p.len) ≡ false
    → round p ≡ r
    → loop round (suc fuel) p ≡ resume (loop round fuel) r
unfolding loop
loop_step round fuel p more e = rw (more, loop) (ap (resume (loop round fuel)) e)

-- At the end of the data no round is made.
pub loop_end :
    (round : Parser → Result Round) (fuel : ℕ) (p : Parser)
    → (p.cur == p.len) ≡ true
    → loop round (suc fuel) p ≡ ok p
unfolding loop
loop_end round fuel p done = rw (done, loop)
