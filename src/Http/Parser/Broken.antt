-- ===== src/Http/Parser/Broken.antt =====
-- Requests that the parser refuses, or on which it fails, although more bytes or another reading
-- would do.
use adl_server.Base.{
  ℕ, zero, suc, ◌+◌, ◌-◌, ◌≤◌, ◌<◌, ◌≡◌, refl, ap, subst, ◌∙◌, true, false, List, [], ◌∷◌, ◌++◌,
  Bytes, length, Memory, ◌==◌, leb, arith, ok, fault, uncaught, Option, ℤ,
}
use adl_server.Http.Parser.Grammar.{Message, print_line, line_length, AreFields, IsMessage}
use adl_server.Http.Parser.Locate.{At, Free, At-append, skip_past-At, find_byte-At}
use adl_server.Http.Parser.Loop.{loop_step}
use adl_server.Http.Parser.RoundTrip.Head.{field_round, field_tail, after_field}
use adl_server.Http.Parser.RoundTrip.Rounds.{lined, line_round, tail_placed}
use adl_server.Http.Parser.Stuck.{print_open, open_length}
use adl_server.Http.Parser.{
  Parser, init, failed, line_bad, line_incomplete, found, scan_line, skip_past, find_byte,
  head_field, head_round, stop, loop, read_method, request_line_parse, after_line, round_of,
  parse_round, parse,
}

-- A line with no '\r' runs up to the end of the data.
scan_line-Free :
    (m : Memory) (left cur : ℕ) (xs : Bytes)
    → At m cur xs
    → Free b'\r' xs
    → length xs ≡ left
    → scan_line m left cur ≡ found (cur + left)
unfolding scan_line
scan_line-Free m zero cur xs h f l = ap found (omega arith)
scan_line-Free m (suc zero) cur (x ∷ xs) h f l = ground (arith, h.0, f.0)
scan_line-Free m (suc (suc left)) cur (x ∷ xs) h f l =
    ground (arith, h.0, f.0, scan_line-Free m (suc left) (cur + 1) xs h.1 f.1 (omega arith))
scan_line-Free m (suc zero) cur [] h f l = absurd (omega arith)
scan_line-Free m (suc (suc left)) cur [] h f l = absurd (omega arith)

-- Data that ends inside the method, one or two bytes long, are refused at once and not kept until the
-- rest arrives: `parse` fails on them, whichever bytes they are, a '\r' apart.
pub parse_short :
    (stoi : Bytes → Option ℤ) (head_fuel fuel : ℕ) (m : Memory) (len : ℕ) (text : Bytes)
    → At m 0 text
    → Free b'\r' text
    → length text ≡ len
    → 0 < len
    → len < 3
    → 1 ≤ fuel
    → (q : Parser) × (parse stoi head_fuel fuel (init m len) ≡ ok q) × (q.final ≡ failed)
unfolding parse
parse_short stoi head_fuel zero m len text h f l lo hi n = absurd (omega arith)
parse_short stoi head_fuel (suc fuel) m len text h f l lo hi n = (
  record (init m len) { l_end = len; line_state = line_bad; final = failed },
  loop_step (parse_round stoi head_fuel) fuel (init m len) more refused,
  refl,
)
  where
    more : (0 == len) ≡ false
    more = ground arith

    scanned : scan_line m (len - 0) 0 ≡ found len
    scanned = scan_line-Free m (len - 0) 0 text h f (omega arith) ∙ ap found (omega arith)

    short : leb 3 (len - 0) ≡ false
    short = ground arith

    shorter : leb 4 (len - 0) ≡ false
    shorter = ground arith

    bad :
        request_line_parse (init m len) ≡ record (init m len) { l_end = len; line_state = line_bad }
    bad =
        unfold request_line_parse in
        rw (scanned, request_line_parse) (unfold read_method in rw (more, short, shorter))

    refused :
        parse_round stoi head_fuel (init m len)
        ≡ ok (stop (record (init m len) { l_end = len; line_state = line_bad; final = failed }))
    refused = unfold parse_round round_of after_line in rw bad

blank_field :
    (p : Parser) (rest : Bytes)
    → At p.buf p.l_beg (b' ' ∷ rest)
    → p.l_beg < p.l_end
    → head_field p ≡ fault uncaught
unfolding head_field
blank_field p rest h l =
    let here : find_byte p.buf b' ' (p.l_end - p.l_beg) p.l_beg ≡ p.l_beg =
      find_byte-At p.buf b' ' (p.l_end - p.l_beg) p.l_beg [] rest h tt (omega arith)
      ∙ omega arith in
    let inside : (p.l_beg == p.l_end) ≡ false = ground arith in
    let start : (p.l_beg == p.l_beg) ≡ true = ground arith in rw (here, inside, start)

-- A header line that begins with a blank: the range of its key ends before it begins.
blank_round :
    (p : Parser) (text more : Bytes)
    → At p.buf p.l_end (b' ' ∷ (text ++ (b'\r' ∷ b'\n' ∷ more)))
    → Free b'\r' text
    → p.l_end + length text + 3 ≤ p.len
    → head_round p ≡ fault uncaught
unfolding head_round
blank_round p text more h f l =
    rw (cr, inside, lf, not_blank)
      (blank_field
        (record p {
          cur = p.l_end + length text + 1 + 1 + 1;
          l_beg = p.l_end;
          l_end = p.l_end + length text + 1 + 1 + 1;
          line_state = line_incomplete;
        })
        (text ++ (b'\r' ∷ b'\n' ∷ more)) h (omega arith))
  where
    cr : skip_past p.buf b'\r' (p.len - p.l_end) p.l_end ≡ p.l_end + length text + 1 + 1
    cr =
        skip_past-At p.buf b'\r' (p.len - p.l_end) p.l_end (b' ' ∷ text) (b'\n' ∷ more) h (refl, f)
          (omega arith)
        ∙ omega arith

    inside : (p.l_end + length text + 1 + 1 == p.len) ≡ false
    inside = ground arith

    lf : p.buf (p.l_end + length text + 1 + 1) ≡ b'\n'
    lf =
        subst (λ i. p.buf i ≡ b'\n') (omega arith)
          (At-append p.buf (p.l_end + 1) text (b'\r' ∷ b'\n' ∷ more) h.1).1.1.0

    not_blank : (p.l_end + 2 == p.l_end + length text + 1 + 1 + 1) ≡ false
    not_blank = ground arith

blank_loop :
    (fs : List (Bytes × Bytes)) (fuel : ℕ) (p : Parser) (text more : Bytes)
    → At p.buf p.l_end (print_open fs (b' ' ∷ (text ++ (b'\r' ∷ b'\n' ∷ more))))
    → AreFields fs
    → Free b'\r' text
    → p.l_end + open_length fs + length text + 3 ≤ p.len
    → p.cur < p.len
    → length fs < fuel
    → loop head_round fuel p ≡ fault uncaught
blank_loop fs zero p text more h a t l c n = absurd (omega arith)
blank_loop [] (suc fuel) p text more h a t l c n =
    loop_step head_round fuel p (ground arith) (blank_round p text more h t (omega arith))
blank_loop ((k, v) ∷ fs) (suc fuel) p text more h a t l c n =
    let rest = print_open fs (b' ' ∷ (text ++ (b'\r' ∷ b'\n' ∷ more))) in
    loop_step head_round fuel p (ground arith) (field_round p k v rest h a.0 a.1 a.2 (omega arith))
    ∙ blank_loop fs fuel (after_field p k v) text more (field_tail p.buf p.l_end k v rest h) a.3 t
        (omega arith) (omega arith) (omega arith)

-- A request with a well-formed request line and header lines, and then a header line that begins with
-- a blank (as a folded header does): the parser throws an exception that nothing catches.
pub parse_leading_blank :
    (stoi : Bytes → Option ℤ) (head_fuel fuel : ℕ) (m : Memory) (len : ℕ) (r : Message)
    (text more : Bytes)
    → IsMessage r
    → At m 0 (print_line r (print_open r.fields (b' ' ∷ (text ++ (b'\r' ∷ b'\n' ∷ more)))))
    → Free b'\r' text
    → line_length r + open_length r.fields + length text + 3 ≤ len
    → length r.fields < head_fuel
    → 2 ≤ fuel
    → parse stoi head_fuel fuel (init m len) ≡ fault uncaught
unfolding parse
parse_leading_blank stoi head_fuel zero m len r text more v h f l n k = absurd (omega arith)
parse_leading_blank stoi head_fuel (suc zero) m len r text more v h f l n k = absurd (omega arith)
parse_leading_blank stoi head_fuel (suc (suc fuel)) m len r text more v h f l n k =
    loop_step (parse_round stoi head_fuel) (suc fuel) (init m len) (ground arith)
      (line_round stoi head_fuel m len r tail v h (omega arith))
    ∙ loop_step (parse_round stoi head_fuel) fuel (lined m len r) (ground arith) second
  where
    tail : Bytes
    tail = print_open r.fields (b' ' ∷ (text ++ (b'\r' ∷ b'\n' ∷ more)))

    second : parse_round stoi head_fuel (lined m len r) ≡ fault uncaught
    second =
        unfold parse_round round_of in
        rw (
          blank_loop r.fields head_fuel (record (lined m len r) { line_state = line_incomplete })
            text more (tail_placed stoi head_fuel m len r tail v h (omega arith)) v.fields_fit f l
            (omega arith) n)
