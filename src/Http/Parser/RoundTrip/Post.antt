-- ===== src/Http/Parser/RoundTrip/Post.antt =====
-- `parse` on a POST request with a body.
use adl_server.Base.{
  ℕ, zero, suc, ◌+◌, ◌^◌, ◌≤◌, ◌<◌, ◌≡◌, refl, ◌∙◌, true, false, [], ◌∷◌, ◌++◌, Bytes, codes,
  length, Memory, ◌==◌, ltb, lt→ltb, arith, ok, Option, some, ℤ, pos, bytes_eq,
}
use adl_server.Http.Request.{Method, post, find, get_pair_found}
use adl_server.Http.Parser.Grammar.{Message, print, line_length, head_length, add_all, IsMessage}
use adl_server.Http.Parser.Locate.{At, At-append, slice-At}
use adl_server.Http.Parser.Loop.{loop_step}
use adl_server.Http.Parser.RoundTrip.Head.{fields_tail}
use adl_server.Http.Parser.{
  Parser, init, success, line_incomplete, in_body, succeed, resume, loop, after_head_ok,
  request_body_parse, after_body, sized_body, is_post, body_round, round_of, parse_round, parse,
}
use adl_server.Http.Parser.RoundTrip.Rounds.{
  read_request, headed, fields_placed, succeeded, two_rounds,
}

module _ (stoi : Bytes → Option ℤ) (head_fuel : ℕ) (m : Memory) (len : ℕ) (r : Message)
    (value : Bytes) (post_is : r.method ≡ post)
    (there : find (codes "Content-Length") (add_all r.fields [])
      ≡ some (codes "Content-Length", value)) where
  abbrev bodied : Bytes → Parser
  bodied body = record (headed m len r) {
    process = in_body;
    request = record (read_request r) { body = body };
    cur = head_length r + length body;
  }

  body_parsed :
      (body : Bytes)
      → At m (head_length r) body
      → head_length r + length body ≤ len
      → head_length r + length body < 2 ^ 31
      → request_body_parse
          (record (headed m len r) { process = in_body; line_state = line_incomplete })
          (length body)
        ≡ ok (bodied body)
  unfolding request_body_parse
  body_parsed body h l o =
      let small : ltb (head_length r + length body) (2 ^ 31) ≡ true = lt→ltb _ _ o in
      let inside : ltb len (head_length r + length body) ≡ false = ground arith in
      rw (small, inside, slice-At m (head_length r) body h)

  -- The third round, behind the blank line.
  body_round-At :
      (b : ℕ) (bs : Bytes)
      → stoi value ≡ some (pos (length (b ∷ bs)))
      → At m (head_length r) (b ∷ bs)
      → head_length r + length (b ∷ bs) ≤ len
      → head_length r + length (b ∷ bs) < 2 ^ 31
      → parse_round stoi head_fuel (record (headed m len r) { process = in_body })
        ≡ succeed (bodied (b ∷ bs))
  unfolding parse_round round_of body_round bytes_eq sized_body after_body
  body_round-At b bs size h l o =
      let more : ltb (head_length r) len ≡ true = lt→ltb (head_length r) len (omega arith) in
      let is_p : is_post (some r.method) ≡ true = rw post_is in
      let found = get_pair_found (add_all r.fields []) (codes "Content-Length") _ there in
      rw (is_p, found, more, size) (rw (body_parsed (b ∷ bs) h l o))

-- A POST request is read back once its body has arrived: where the header map has a "Content-Length"
-- that `stoi` reads as the length of a body that is not empty, and the request ends below 2^31,
-- `parse` succeeds with three rounds for the message. It finds the method, the URL, the version, the
-- header map and the body, and takes exactly the bytes of the request, whatever follows them.
pub parse-print_post :
    (stoi : Bytes → Option ℤ) (head_fuel fuel : ℕ) (m : Memory) (len : ℕ) (r : Message)
    (value body rest : Bytes)
    → IsMessage r
    → r.method ≡ post
    → find (codes "Content-Length") (add_all r.fields []) ≡ some (codes "Content-Length", value)
    → stoi value ≡ some (pos (length body))
    → 0 < length body
    → At m 0 (print r (body ++ rest))
    → head_length r + length body ≤ len
    → head_length r + length body < 2 ^ 31
    → length r.fields < head_fuel
    → 3 ≤ fuel
    → (q : Parser) × (parse stoi head_fuel fuel (init m len) ≡ ok q)
      × (q.final ≡ success)
      × (q.request
          ≡ record (read_request r) { parse_size = head_length r + length body; body = body })
parse-print_post stoi head_fuel zero m len r value body rest v p t s z h l o n f =
    absurd (omega arith)
parse-print_post stoi head_fuel (suc zero) m len r value body rest v p t s z h l o n f =
    absurd (omega arith)
parse-print_post stoi head_fuel (suc (suc zero)) m len r value body rest v p t s z h l o n f =
    absurd (omega arith)
parse-print_post stoi head_fuel (suc (suc (suc fuel))) m len r value [] rest v p t s z h l o n f =
    absurd (omega arith)
parse-print_post stoi head_fuel (suc (suc (suc fuel))) m len r value (b ∷ bs) rest v p t s z h l o n
      f =
    let more : (head_length r == len) ≡ false = ground arith in
    let behind =
      fields_tail m r.fields (line_length r) ((b ∷ bs) ++ rest)
        (fields_placed stoi head_fuel m len r ((b ∷ bs) ++ rest) v h (omega arith)) in
    let at_body = (At-append m (head_length r) (b ∷ bs) rest behind).0 in
    let third = body_round-At stoi head_fuel m len r value p t b bs s at_body l o in
    (
      succeeded (bodied stoi head_fuel m len r value p t (b ∷ bs)),
      two_rounds stoi head_fuel m len r ((b ∷ bs) ++ rest) v h (omega arith) (suc fuel) n
          ∙ goes_on r.method p (headed m len r) (suc fuel)
          ∙ loop_step (parse_round stoi head_fuel) fuel
              (record (headed m len r) { process = in_body }) more third,
      refl,
      refl,
    )
  where
    goes_on :
        (w : Method)
        → w ≡ post
        → (q : Parser) (k : ℕ)
        → resume (loop (parse_round stoi head_fuel) k) (after_head_ok (some w) q)
          ≡ loop (parse_round stoi head_fuel) k (record q { process = in_body })
    goes_on w e q k = rw e (unfold after_head_ok in refl)
