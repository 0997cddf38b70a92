-- ===== src/Http/Parser/Stuck.antt =====
-- Requests on which the parser never returns: the server's thread spins on them for ever.
use adl_server.Base.{
  ℕ, zero, suc, ◌+◌, ◌-◌, ◌<◌, ◌≡◌, ◌∙◌, false, List, [], ◌∷◌, ◌++◌, Bytes, length, Memory, ◌==◌,
  arith, ok, fault, endless, Option, ℤ,
}
use adl_server.Http.Parser.Grammar.{Message, print_line, line_length, AreFields, IsMessage}
use adl_server.Http.Parser.Locate.{At, Free, At-append, skip_past-At}
use adl_server.Http.Parser.Loop.{loop_step}
use adl_server.Http.Parser.RoundTrip.Head.{field_round, field_tail, after_field}
use adl_server.Http.Parser.RoundTrip.Rounds.{lined, line_round, tail_placed}
use adl_server.Http.Parser.{
  Parser, init, line_incomplete, again, head_round, loop, round_of, parse_round, parse,
}

-- Header lines with no blank line behind them yet.
abbrev pub print_open : List (Bytes × Bytes) → Bytes → Bytes
print_open [] rest = rest
print_open ((k, v) ∷ fs) rest = k ++ (b':' ∷ b' ' ∷ (v ++ (b'\r' ∷ b'\n' ∷ print_open fs rest)))

abbrev pub open_length : List (Bytes × Bytes) → ℕ
open_length [] = 0
open_length ((k, v) ∷ fs) = length k + length v + 4 + open_length fs

-- The round at a '\r' with no '\n' behind it goes back to where it began.
bare_round :
    (p : Parser) (text : Bytes) (c : ℕ) (more : Bytes)
    → At p.buf p.l_end (text ++ (b'\r' ∷ c ∷ more))
    → Free b'\r' text
    → (c == b'\n') ≡ false
    → p.l_end + length text + 2 < p.len
    → head_round p
      ≡ ok (
          again (record p {
            cur = p.l_end + length text + 1 + 1;
            l_beg = p.l_end;
            line_state = line_incomplete;
          }))
unfolding head_round
bare_round p text c more h f n l =
    let cr = skip_past-At p.buf b'\r' (p.len - p.l_end) p.l_end text (c ∷ more) h f (omega arith) in
    let inside : (p.l_end + length text + 1 == p.len) ≡ false = ground arith in
    let other = (At-append p.buf p.l_end text (b'\r' ∷ c ∷ more) h).1.1.0 in
    rw (cr, inside, other, n)

head_stuck :
    (fuel : ℕ) (p : Parser) (fs : List (Bytes × Bytes)) (text : Bytes) (c : ℕ) (more : Bytes)
    → At p.buf p.l_end (print_open fs (text ++ (b'\r' ∷ c ∷ more)))
    → AreFields fs
    → Free b'\r' text
    → (c == b'\n') ≡ false
    → p.l_end + open_length fs + length text + 2 < p.len
    → p.cur < p.len
    → loop head_round fuel p ≡ fault endless
unfolding loop
head_stuck zero p fs text c more h a f n l cur =
    let before : (p.cur == p.len) ≡ false = ground arith in rw before
head_stuck (suc fuel) p [] text c more h a f n l cur =
    let before : (p.cur == p.len) ≡ false = ground arith in
    loop_step head_round fuel p before (bare_round p text c more h f n (omega arith))
    ∙ head_stuck fuel
        (record p {
          cur = p.l_end + length text + 1 + 1;
          l_beg = p.l_end;
          line_state = line_incomplete;
        })
        [] text c more h a f n l (omega arith)
head_stuck (suc fuel) p ((k, v) ∷ fs) text c more h a f n l cur =
    let before : (p.cur == p.len) ≡ false = ground arith in
    loop_step head_round fuel p before
      (field_round p k v (print_open fs (text ++ (b'\r' ∷ c ∷ more))) h a.0 a.1 a.2 (omega arith))
    ∙ head_stuck fuel (after_field p k v) fs text c more
        (field_tail p.buf p.l_end k v (print_open fs (text ++ (b'\r' ∷ c ∷ more))) h) a.3 f n
        (omega arith) (omega arith)

-- A request whose request line and first header lines are well formed, and whose next header line has
-- a '\r' that no '\n' follows, two bytes or more before the end of the data: `parse` does not return,
-- however long it runs.
pub parse_bare_cr :
    (stoi : Bytes → Option ℤ) (head_fuel fuel : ℕ) (m : Memory) (len : ℕ) (r : Message)
    (text : Bytes) (c : ℕ) (more : Bytes)
    → IsMessage r
    → At m 0 (print_line r (print_open r.fields (text ++ (b'\r' ∷ c ∷ more))))
    → Free b'\r' text
    → (c == b'\n') ≡ false
    → line_length r + open_length r.fields + length text + 2 < len
    → parse stoi head_fuel fuel (init m len) ≡ fault endless
unfolding parse
parse_bare_cr stoi head_fuel fuel m len r text c more v h f n l = go fuel
  where
    tail : Bytes
    tail = print_open r.fields (text ++ (b'\r' ∷ c ∷ more))

    in_line_more : (0 == len) ≡ false
    in_line_more = ground arith

    in_head_more : (line_length r == len) ≡ false
    in_head_more = ground arith

    first : parse_round stoi head_fuel (init m len) ≡ ok (again (lined m len r))
    first = line_round stoi head_fuel m len r tail v h (omega arith)

    second : parse_round stoi head_fuel (lined m len r) ≡ fault endless
    second =
        unfold parse_round round_of in
        rw (
          head_stuck head_fuel (record (lined m len r) { line_state = line_incomplete }) r.fields
            text c more (tail_placed stoi head_fuel m len r tail v h (omega arith)) v.fields_fit f n
            l (omega arith))

    go : (k : ℕ) → loop (parse_round stoi head_fuel) k (init m len) ≡ fault endless
    go zero = unfold loop in rw in_line_more
    go (suc zero) =
        loop_step (parse_round stoi head_fuel) zero (init m len) in_line_more first
        ∙ unfold loop in rw in_head_more
    go (suc (suc k)) =
        loop_step (parse_round stoi head_fuel) (suc k) (init m len) in_line_more first
        ∙ loop_step (parse_round stoi head_fuel) k (lined m len r) in_head_more second
