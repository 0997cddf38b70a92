-- ===== src/Http/Parser/RoundTrip/Rounds.antt =====
-- The rounds of `parse` on the head of a request of the grammar.
use native.Mathlib.Nat.{zero-add}
use adl_server.Base.{
  ℕ, suc, ◌-◌, ◌≤◌, ◌<◌, ◌≡◌, refl, sym, subst, ◌∙◌, false, [], ◌∷◌, Bytes, length, Memory, ◌==◌,
  arith, ok, Option, some, ℤ,
}
use adl_server.Http.Request.{Request}
use adl_server.Http.Parser.Grammar.{
  Message, print_line, print_fields, print, line_length, head_length, add_all, IsMessage,
}
use adl_server.Http.Parser.Locate.{At, At-append}
use adl_server.Http.Parser.Loop.{loop_step}
use adl_server.Http.Parser.RoundTrip.Head.{head_loop-At, fields_length_ge}
use adl_server.Http.Parser.RoundTrip.Line.{
  request_line_parse-At, line_text, line_text_print, length-line_text,
}
use adl_server.Http.Parser.{
  Parser, init, success, line_ok, line_incomplete, in_head, again, resume, loop, request_head_parse,
  after_line, after_head, after_head_ok, round_of, parse_round, parse,
}

-- What the parser makes of the head of `r`.
abbrev pub read_request : Message → Request
read_request r = record {
  parse_size = 0;
  line = record { version = r.version; url = r.url; method = some r.method };
  head = add_all r.fields [];
  body = [];
}

-- The states behind the request line and behind the blank line.
abbrev pub lined : Memory → ℕ → Message → Parser
lined m len r = record (init m len) {
  request = record (read_request r) { head = [] };
  l_end = line_length r;
  cur = line_length r;
  line_state = line_ok;
  process = in_head;
}

abbrev pub headed : Memory → ℕ → Message → Parser
headed m len r = record (init m len) {
  request = read_request r;
  l_beg = head_length r - 2;
  l_end = head_length r;
  cur = head_length r;
  line_state = line_ok;
  process = in_head;
}

-- Behind a request line anything may follow.
module _ (stoi : Bytes → Option ℤ) (head_fuel : ℕ) (m : Memory) (len : ℕ) (r : Message)
    (tail : Bytes) (fits : IsMessage r) (placed : At m 0 (print_line r tail))
    (enough : line_length r ≤ len) where
  pub line_round : parse_round stoi head_fuel (init m len) ≡ ok (again (lined m len r))
  unfolding parse_round round_of after_line
  line_round =
      let e = request_line_parse-At (init m len) r tail fits placed refl (omega (arith, enough)) in
      rw e (rw zero-add)

  pub tail_placed : At m (line_length r) tail
  tail_placed =
      let whole = subst (At m 0) (sym (line_text_print r tail)) placed in
      subst (λ i. At m i tail) (omega (arith, length-line_text r fits))
        (At-append m 0 (line_text r) (b'\r' ∷ b'\n' ∷ tail) whole).1.1.1

  pub more_after_line : (0 == len) ≡ false
  more_after_line = ground (arith, enough)

module _ (stoi : Bytes → Option ℤ) (head_fuel : ℕ) (m : Memory) (len : ℕ) (r : Message)
    (rest : Bytes) (fits : IsMessage r) (placed : At m 0 (print r rest))
    (enough : head_length r ≤ len) where
  pub fields_placed : At m (line_length r) (print_fields r.fields rest)
  fields_placed =
      tail_placed stoi head_fuel m len r (print_fields r.fields rest) fits placed
        (omega (arith, enough))

  head_parsed :
      length r.fields < head_fuel
      → request_head_parse head_fuel (record (lined m len r) { line_state = line_incomplete })
        ≡ ok (headed m len r)
  head_parsed n =
      head_loop-At r.fields head_fuel (record (lined m len r) { line_state = line_incomplete }) rest
        fields_placed fits.fields_fit enough (omega (arith, fields_length_ge r.fields)) n

  head_round_whole :
      length r.fields < head_fuel
      → parse_round stoi head_fuel (lined m len r) ≡ after_head_ok (some r.method) (headed m len r)
  unfolding parse_round round_of after_head
  head_round_whole n = rw (head_parsed n)

  more_in_head : (line_length r == len) ≡ false
  more_in_head = ground (arith, enough, fields_length_ge r.fields)

  -- The first two rounds of `parse`.
  pub two_rounds :
      (fuel : ℕ)
      → length r.fields < head_fuel
      → parse stoi head_fuel (suc (suc fuel)) (init m len)
        ≡ resume
            (loop (parse_round stoi head_fuel) fuel)
            (after_head_ok (some r.method) (headed m len r))
  unfolding parse
  two_rounds fuel n =
      loop_step (parse_round stoi head_fuel) (suc fuel) (init m len)
        (more_after_line stoi head_fuel m len r (print_fields r.fields rest) fits placed
          (omega (arith, enough)))
        (line_round stoi head_fuel m len r (print_fields r.fields rest) fits placed
          (omega (arith, enough)))
      ∙ loop_step (parse_round stoi head_fuel) fuel (lined m len r) more_in_head
          (head_round_whole n)

abbrev pub succeeded : Parser → Parser
succeeded p = record p { request = record p.request { parse_size = p.cur }; final = success }
