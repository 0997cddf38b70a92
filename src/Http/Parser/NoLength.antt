-- ===== src/Http/Parser/NoLength.antt =====
-- A POST request with no positive length keeps the parser busy for ever.
use adl_server.Base.{
  ℕ, zero, suc, ◌<◌, ◌≡◌, refl, ◌∙◌, true, false, [], Bytes, codes, length, Memory, ◌==◌, ltb,
  lt→ltb, arith, ok, Option, some, ℤ, pos, negsuc, fault, endless, bytes_eq,
}
use adl_server.Http.Request.{Method, post, find, get_pair_found}
use adl_server.Http.Parser.Grammar.{
  Message, print_fields, print, line_length, head_length, add_all, IsMessage,
}
use adl_server.Http.Parser.Locate.{At}
use adl_server.Http.Parser.Loop.{loop_step}
use adl_server.Http.Parser.{
  Parser, init, LineState, line_ok, line_incomplete, in_body, again, resume, loop, after_head_ok,
  sized_body, is_post, body_round, round_of, parse_round, parse,
}
use adl_server.Http.Parser.RoundTrip.Rounds.{line_round, headed, two_rounds}

abbrev pub IsNotPositive : ℤ → Type 0
IsNotPositive (pos zero) = Unit
IsNotPositive (pos (suc n)) = ⊥
IsNotPositive (negsuc n) = Unit

idle_round : (p : Parser) (z : ℤ) → IsNotPositive z → sized_body (some z) p ≡ ok (again p)
unfolding sized_body
idle_round p (pos zero) n = refl
idle_round p (pos (suc k)) n = absurd n
idle_round p (negsuc k) n = refl

module _ (stoi : Bytes → Option ℤ) (head_fuel : ℕ) (m : Memory) (len : ℕ) (r : Message)
    (value : Bytes) (z : ℤ) (post_is : r.method ≡ post)
    (there : find (codes "Content-Length") (add_all r.fields [])
      ≡ some (codes "Content-Length", value))
    (read_as : stoi value ≡ some z) (not_positive : IsNotPositive z)
    (more : head_length r < len) where
  abbrev idle : LineState → Parser
  idle s = record (headed m len r) { process = in_body; line_state = s }

  idle_again :
      (s : LineState) → parse_round stoi head_fuel (idle s) ≡ ok (again (idle line_incomplete))
  unfolding parse_round round_of body_round bytes_eq
  idle_again s =
      let before : ltb (head_length r) len ≡ true = lt→ltb (head_length r) len more in
      let is_p : is_post (some r.method) ≡ true = rw post_is in
      let found = get_pair_found (add_all r.fields []) (codes "Content-Length") _ there in
      rw (is_p, found, before, read_as) (idle_round (idle line_incomplete) z not_positive)

  loop-idle :
      (fuel : ℕ) (s : LineState) → loop (parse_round stoi head_fuel) fuel (idle s) ≡ fault endless
  unfolding loop
  loop-idle zero s = let before : (head_length r == len) ≡ false = ground arith in rw before
  loop-idle (suc fuel) s =
      loop_step (parse_round stoi head_fuel) fuel (idle s) (ground arith) (idle_again s)
      ∙ loop-idle fuel line_incomplete

-- A POST request whose "Content-Length" is read as a number that is not positive, with a byte behind
-- its blank line: `parse` does not return, however long it runs.
pub parse_no_length :
    (stoi : Bytes → Option ℤ) (head_fuel fuel : ℕ) (m : Memory) (len : ℕ) (r : Message)
    (value rest : Bytes) (z : ℤ)
    → IsMessage r
    → r.method ≡ post
    → find (codes "Content-Length") (add_all r.fields []) ≡ some (codes "Content-Length", value)
    → stoi value ≡ some z
    → IsNotPositive z
    → At m 0 (print r rest)
    → head_length r < len
    → length r.fields < head_fuel
    → parse stoi head_fuel fuel (init m len) ≡ fault endless
unfolding parse
parse_no_length stoi head_fuel zero m len r value rest z v p t s n h l k =
    let more : (0 == len) ≡ false = ground arith in unfold loop in rw more
parse_no_length stoi head_fuel (suc zero) m len r value rest z v p t s n h l k =
    let more : (line_length r == len) ≡ false = ground arith in
    loop_step (parse_round stoi head_fuel) zero (init m len) (ground arith)
      (line_round stoi head_fuel m len r (print_fields r.fields rest) v h (omega arith))
    ∙ unfold loop in rw more
parse_no_length stoi head_fuel (suc (suc fuel)) m len r value rest z v p t s n h l k =
    two_rounds stoi head_fuel m len r rest v h (omega arith) fuel k
    ∙ goes_on r.method p (headed m len r)
    ∙ loop-idle stoi head_fuel m len r value z p t s n l fuel line_ok
  where
    goes_on :
        (w : Method)
        → w ≡ post
        → (q : Parser)
        → resume (loop (parse_round stoi head_fuel) fuel) (after_head_ok (some w) q)
          ≡ loop (parse_round stoi head_fuel) fuel (record q { process = in_body })
    goes_on w e q = rw e (unfold after_head_ok in refl)
