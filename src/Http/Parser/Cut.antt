-- ===== src/Http/Parser/Cut.antt =====
-- A request of which only a part has arrived.
use adl_server.Base.{
  ℕ, zero, suc, ◌+◌, ◌-◌, ◌≤◌, ◌<◌, ◌≡◌, refl, ap, subst, ◌∙◌, ◌⊎◌, inl, inr, Bool-cases, true,
  false, List, [], ◌∷◌, ◌++◌, Bytes, length, length-append, Memory, ◌==◌, arith, ok, Option, ℤ,
}
use adl_server.Http.Parser.Grammar.{Message, print_line, line_length, AreFields, IsMessage}
use adl_server.Http.Parser.Locate.{At, Free, skip_past-At, skip_past-Free}
use adl_server.Http.Parser.Loop.{loop_step, loop_end}
use adl_server.Http.Parser.RoundTrip.Head.{field_round, field_tail, after_field}
use adl_server.Http.Parser.RoundTrip.Rounds.{lined, line_round, tail_placed}
use adl_server.Http.Parser.Stuck.{print_open, open_length}
use adl_server.Http.Parser.{
  Parser, init, incomplete, line_incomplete, skip_past, stop, again, head_round, loop, after_head,
  round_of, parse_round, parse,
}

-- The start of a header line: no '\r' in it, or one that is its last byte.
abbrev pub IsPartial : Bytes → Type 0
IsPartial text = Free b'\r' text ⊎ ((xs : Bytes) × (text ≡ xs ++ b'\r' ∷ []) × Free b'\r' xs)

partial_scan :
    (m : Memory) (i len : ℕ) (text : Bytes)
    → At m i text
    → IsPartial text
    → i + length text ≡ len
    → skip_past m b'\r' (len - i) i ≡ len
partial_scan m i len text h (inl f) e =
    skip_past-Free m b'\r' (len - i) i text h f (omega arith) ∙ omega arith
partial_scan m i len text h (inr (xs, t, f)) e =
    let size = length-append xs (b'\r' ∷ []) in
    let long : length text ≡ length xs + 1 = ap length t ∙ size in
    skip_past-At m b'\r' (len - i) i xs [] (subst (At m i) t h) f (omega (arith, long))
    ∙ omega (arith, long)

abbrev waiting : Parser → Parser
waiting p = record p { cur = p.len; l_beg = p.l_end; line_state = line_incomplete }

cut_round :
    (p : Parser) (text : Bytes)
    → At p.buf p.l_end text
    → IsPartial text
    → p.l_end + length text ≡ p.len
    → head_round p ≡ ok (stop (waiting p))
unfolding head_round
cut_round p text h t l =
    let scan = partial_scan p.buf p.l_end p.len text h t l in
    let here : (p.len == p.len) ≡ true = ground arith in rw (scan, here)

-- The header loop runs out of data, and says so.
head_cut :
    (fs : List (Bytes × Bytes)) (fuel : ℕ) (p : Parser) (text : Bytes)
    → At p.buf p.l_end (print_open fs text)
    → AreFields fs
    → IsPartial text
    → p.l_end + open_length fs + length text ≡ p.len
    → p.cur < p.len
    → length fs < fuel
    → (q : Parser) × (loop head_round fuel p ≡ ok q) × (q.line_state ≡ line_incomplete)
head_cut fs zero p text h a t l c n = absurd (omega arith)
head_cut [] (suc fuel) p text h a t l c n =
    let before : (p.cur == p.len) ≡ false = ground arith in
    (waiting p, loop_step head_round fuel p before (cut_round p text h t (omega arith)), refl)
head_cut ((k, v) ∷ fs) (suc fuel) p text h a t l c n =
    let before : (p.cur == p.len) ≡ false = ground arith in
    let (q, e, s) =
      head_cut fs fuel (after_field p k v) text
        (field_tail p.buf p.l_end k v (print_open fs text) h) a.3 t (omega arith) (omega arith)
        (omega arith) in
    (
      q,
      loop_step head_round fuel p before
            (field_round p k v (print_open fs text) h a.0 a.1 a.2 (omega arith))
          ∙ e,
      s,
    )

-- A request that is cut off behind its request line and before the end of its blank line: after whole
-- header lines and a part of the next one, which may end in a '\r', `parse` says that the request is
-- incomplete, so that the server waits for the rest.
pub parse_cut :
    (stoi : Bytes → Option ℤ) (head_fuel fuel : ℕ) (m : Memory) (len : ℕ) (r : Message)
    (text : Bytes)
    → IsMessage r
    → At m 0 (print_line r (print_open r.fields text))
    → IsPartial text
    → line_length r + open_length r.fields + length text ≡ len
    → length r.fields < head_fuel
    → 2 ≤ fuel
    → (q : Parser) × (parse stoi head_fuel fuel (init m len) ≡ ok q) × (q.final ≡ incomplete)
unfolding parse
parse_cut stoi head_fuel zero m len r text v h t l n f = absurd (omega arith)
parse_cut stoi head_fuel (suc zero) m len r text v h t l n f = absurd (omega arith)
parse_cut stoi head_fuel (suc (suc fuel)) m len r text v h t l n f =
    elim (Bool-cases (line_length r == len)) [
      | inl all ↦ (
        lined m len r,
        loop_step (parse_round stoi head_fuel) (suc fuel) (init m len) more first
            ∙ loop_end (parse_round stoi head_fuel) fuel (lined m len r) all,
        refl,
      )
      | inr part ↦
          let (q, e, s) =
            head_cut r.fields head_fuel (record (lined m len r) { line_state = line_incomplete })
              text (tail_placed stoi head_fuel m len r (print_open r.fields text) v h (omega arith))
              v.fields_fit t l (ground arith) n in
          (
            record q { final = incomplete },
            loop_step (parse_round stoi head_fuel) (suc fuel) (init m len) more first
                ∙ loop_step (parse_round stoi head_fuel) fuel (lined m len r) part (second q e s),
            refl,
          )
    ]
  where
    more : (0 == len) ≡ false
    more = ground arith

    first : parse_round stoi head_fuel (init m len) ≡ ok (again (lined m len r))
    first = line_round stoi head_fuel m len r (print_open r.fields text) v h (omega arith)

    second :
        (q : Parser)
        → loop head_round head_fuel (record (lined m len r) { line_state = line_incomplete }) ≡ ok q
        → q.line_state ≡ line_incomplete
        → parse_round stoi head_fuel (lined m len r) ≡ ok (stop (record q { final = incomplete }))
    second q e s = unfold parse_round round_of after_head in rw e (rw s)
