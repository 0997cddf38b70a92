-- ===== src/Http/Parser/Total/Whole.antt =====
-- With no bare '\r', the parser returns or comes to a length that is not positive.
use adl_server.Base.{
  ℕ, zero, suc, ◌≤◌, ◌<◌, ◌≡◌, ◌≢◌, refl, ap, ◌∙◌, [], ltb, ◌⊎◌, inl, inr, Bytes, codes, Memory,
  ◌==◌, ◌&&◌, not, false, bytes_eq, Bool-cases, arith, Result, ok, fault, endless, Option, none,
  some, ℤ, pos, negsuc, ◌>>=◌,
}
use adl_server.Http.Request.{get_pair}
use adl_server.Http.Parser.Bounds.{InRange, RoundInRange, parse_round-InRange}
use adl_server.Http.Parser.Loop.{loop_step, loop_end}
use adl_server.Http.Parser.{
  Parser, init, LineState, line_bad, line_ok, line_incomplete, ProcessState, in_line, in_head,
  in_body, Round, stop, again, resume, loop, request_head_parse, request_line_parse,
  request_body_parse, after_line, after_head, after_head_ok, after_body, sized_body, body_round,
  round_of, is_post, finish, parse_round, parse,
}
use adl_server.Http.Parser.Total.Head.{NoBareCr, head_loop_total}
use adl_server.Http.Parser.Total.Untouched.{request_line_parse_buf}

abbrev rank : ProcessState → ℕ
rank in_line = 3
rank in_head = 2
rank in_body = 1

-- What the parts before the body need to know of the bytes.
abbrev Fine : ℕ → ProcessState → Memory → Type 0
Fine n in_body m = Unit
Fine n _ m = NoBareCr m n

abbrev Descends : ℕ → ProcessState → Result Round → Type 0
Descends n s (ok (stop q)) = Unit
Descends n s (ok (again q)) = (rank q.process < rank s) × Fine n q.process q.buf
Descends n s (fault e) = e ≢ endless

after_line-Descends :
    (n : ℕ) (s : LineState) (p : Parser) → NoBareCr p.buf n → Descends n in_line (after_line s p)
unfolding after_line
after_line-Descends n line_bad p h = tt
after_line-Descends n line_ok p h = (omega arith, h)
after_line-Descends n line_incomplete p h = tt

after_head-Descends : (n : ℕ) (s : LineState) (p : Parser) → Descends n in_head (after_head s p)
unfolding after_head after_head_ok
after_head-Descends n s p = ground arith

head_part-Descends :
    (n : ℕ) (r : Result Parser)
    → r ≢ fault endless
    → Descends n in_head (do q ← r; after_head q.line_state q)
head_part-Descends n (ok q) h = after_head-Descends n q.line_state q
head_part-Descends n (fault e) h = λ x. h (ap fault x)

-- The value of the header "Content-Length", as the parser has built the map so far.
abbrev pub length_text : Parser → Bytes
length_text p = (get_pair p.request.head (codes "Content-Length")).1

-- A number that is not positive, as a length that is read.
abbrev pub IsNotPositive : Option ℤ → Type 0
IsNotPositive none = ⊥
IsNotPositive (some (pos zero)) = Unit {0}
IsNotPositive (some (pos (suc k))) = ⊥
IsNotPositive (some (negsuc k)) = Unit {0}

sized_body-by :
    (n : ℕ) (v : Option ℤ) (p : Parser)
    → Descends n in_body (sized_body v p) ⊎ (IsNotPositive v × (sized_body v p ≡ ok (again p)))
unfolding sized_body request_body_parse after_body
sized_body-by n none p = inl (λ e. cc)
sized_body-by n (some (negsuc k)) p = inr (tt, refl)
sized_body-by n (some (pos zero)) p = inr (tt, refl)
sized_body-by n (some (pos (suc k))) p = inl (ground arith)

round_of-Descends :
    (stoi : Bytes → Option ℤ) (head_fuel n : ℕ) (s : ProcessState) (p : Parser)
    → n < head_fuel
    → InRange n p
    → Fine n s p.buf
    → Descends n s (round_of stoi head_fuel s p)
      ⊎ ((s ≡ in_body)
          × IsNotPositive (stoi (length_text p))
          × (round_of stoi head_fuel s p ≡ ok (again p)))
unfolding round_of body_round
round_of-Descends stoi head_fuel n in_line p f v h =
    inl (after_line-Descends n _ (request_line_parse p) (rw request_line_parse_buf h))
round_of-Descends stoi head_fuel n in_head p f v h = inl (
    head_part-Descends n (request_head_parse head_fuel p)
      (head_loop_total head_fuel n p v h (omega arith)))
round_of-Descends stoi head_fuel n in_body p f v h =
    let asks =
      is_post p.request.line.method
      && not (bytes_eq (get_pair p.request.head (codes "Content-Length")).0 [])
      && ltb p.cur p.len in
    elim (Bool-cases asks) [
      | inr m ↦ inl (rw (m, finish) tt)
      | inl y ↦ elim (sized_body-by n (stoi (length_text p)) p) [
        | inl d ↦ inl (rw y d)
        | inr (z, idle) ↦ inr (refl, z, rw y idle)
      ]
    ]

-- A state that the loop of `parse` comes to from another, round by round.
pub data Reaches (stoi : Bytes → Option ℤ) (head_fuel : ℕ) : Parser → Parser → Type 0 where
  here : (p : Parser) → Reaches stoi head_fuel p p
  further :
      (p q r : Parser)
      → (p.cur == p.len) ≡ false
      → parse_round stoi head_fuel p ≡ ok (again q)
      → Reaches stoi head_fuel q r
      → Reaches stoi head_fuel p r

-- The loop comes to the body with a length that `stoi` reads as a number that is not positive, and
-- its round leaves all as it is.
abbrev pub MeetsNoLength : (Bytes → Option ℤ) → ℕ → Parser → Type 0
MeetsNoLength stoi head_fuel p =
    (q : Parser) × Reaches stoi head_fuel p q
    × ((q.cur == q.len) ≡ false)
    × (q.process ≡ in_body)
    × IsNotPositive (stoi (length_text q))
    × (parse_round stoi head_fuel q ≡ ok (again (record q { line_state = line_incomplete })))

module _ (stoi : Bytes → Option ℤ) (head_fuel : ℕ) where
  idle_endless :
      (fuel : ℕ) (q : Parser)
      → (q.cur == q.len) ≡ false
      → parse_round stoi head_fuel q ≡ ok (again (record q { line_state = line_incomplete }))
      → loop (parse_round stoi head_fuel) fuel q ≡ fault endless
  unfolding loop parse_round
  idle_endless zero q more idle = rw more
  idle_endless (suc fuel) q more idle =
      loop_step (parse_round stoi head_fuel) fuel q more idle
      ∙ idle_endless fuel (record q { line_state = line_incomplete }) more idle

  Reaches-endless :
      (fuel : ℕ) (p q : Parser)
      → Reaches stoi head_fuel p q
      → (q.cur == q.len) ≡ false
      → parse_round stoi head_fuel q ≡ ok (again (record q { line_state = line_incomplete }))
      → loop (parse_round stoi head_fuel) fuel p ≡ fault endless
  unfolding loop
  Reaches-endless fuel _ _ (here p) more idle = idle_endless fuel p more idle
  Reaches-endless zero _ _ (further p r q left same reach) more idle = rw left
  Reaches-endless (suc fuel) _ _ (further p r q left same reach) more idle =
      loop_step (parse_round stoi head_fuel) fuel p left same
      ∙ Reaches-endless fuel r q reach more idle

module _ (stoi : Bytes → Option ℤ) (head_fuel n : ℕ) where
  resume-rank :
      (fuel : ℕ) (p : Parser) (r : Result Round)
      → (p.cur == p.len) ≡ false
      → parse_round stoi head_fuel p ≡ r
      → ((q : Parser)
          → InRange n q
          → Fine n q.process q.buf
          → rank q.process < fuel
          → (loop (parse_round stoi head_fuel) fuel q ≢ fault endless)
            ⊎ MeetsNoLength stoi head_fuel q)
      → RoundInRange n r
      → Descends n p.process r
      → rank p.process < suc fuel
      → (resume (loop (parse_round stoi head_fuel) fuel) r ≢ fault endless)
        ⊎ MeetsNoLength stoi head_fuel p
  resume-rank fuel p (fault e) more same ih v d k = inl (λ x. d (ground arith))
  resume-rank fuel p (ok (stop q)) more same ih v d k = inl (λ x. cc)
  resume-rank fuel p (ok (again q)) more same ih v d k = elim (ih q v d.1 (omega (arith, d.0))) [
    | inl x ↦ inl x
    | inr (x, reach, more_there, body, z, idle) ↦
        inr (x, further p q x more same reach, more_there, body, z, idle)
  ]

  loop_total :
      (fuel : ℕ) (p : Parser)
      → n < head_fuel
      → InRange n p
      → Fine n p.process p.buf
      → rank p.process < fuel
      → (loop (parse_round stoi head_fuel) fuel p ≢ fault endless) ⊎ MeetsNoLength stoi head_fuel p
  loop_total zero p f v h r = absurd (omega arith)
  loop_total (suc fuel) p f v h r = elim (Bool-cases (p.cur == p.len)) [
    | inl done ↦ inl (rw (loop_end (parse_round stoi head_fuel) fuel p done) (λ e. cc))
    | inr more ↦ elim descends [
      | inl d ↦ rw (loop_step (parse_round stoi head_fuel) fuel p more refl) (
          resume-rank fuel p (parse_round stoi head_fuel p) more refl (λ q. loop_total fuel q f)
            (parse_round-InRange n stoi head_fuel p v) d r)
      | inr (body, z, idle) ↦ inr (p, here p, more, body, z, idle)
    ]
  ]
    where
      descends :
          Descends n p.process (parse_round stoi head_fuel p)
          ⊎ ((p.process ≡ in_body)
              × IsNotPositive (stoi (length_text p))
              × (parse_round stoi head_fuel p
                  ≡ ok (again (record p { line_state = line_incomplete }))))
      descends =
          unfold parse_round in
          round_of-Descends stoi head_fuel n p.process (record p { line_state = line_incomplete }) f
            (omega (arith, v)) h

-- Where every '\r' before the last byte has a '\n' behind it, and whatever else the bytes are and
-- whatever `stoi` is: either four rounds and a header loop of one round for each byte are enough
-- for `parse` to return or throw; or the loop comes to the body with a value of "Content-Length"
-- that `stoi` reads as a number that is not positive, and then `parse` does not return, however
-- long it runs.
pub parse_total :
    (stoi : Bytes → Option ℤ) (head_fuel fuel : ℕ) (m : Memory) (len : ℕ)
    → NoBareCr m len
    → len < head_fuel
    → 4 ≤ fuel
    → (parse stoi head_fuel fuel (init m len) ≢ fault endless)
      ⊎ (MeetsNoLength stoi head_fuel (init m len)
          × ((more : ℕ) → parse stoi head_fuel more (init m len) ≡ fault endless))
unfolding parse
parse_total stoi head_fuel fuel m len h f r =
    elim (loop_total stoi head_fuel len fuel (init m len) f (omega arith) h (omega arith)) [
      | inl x ↦ inl x
      | inr (q, reach, more, body, z, idle) ↦ inr (
        (q, reach, more, body, z, idle),
        λ k. Reaches-endless stoi head_fuel k (init m len) q reach more idle,
      )
    ]
