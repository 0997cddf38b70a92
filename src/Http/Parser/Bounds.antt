-- ===== src/Http/Parser/Bounds.antt =====
-- The cursors of the parser stay inside the data, whatever the bytes are.
use adl_server.Base.{
  ℕ, zero, suc, ◌+◌, ◌-◌, ◌≤◌, ◌≡◌, refl, subst, Bytes, codes, Memory, ◌==◌, Option, some, Result,
  ok, fault, ◌>>=◌, ℤ, arith, inl, inr, Bool-cases,
}
use adl_server.Http.Request.{get, post, get_pair}
use adl_server.Http.Parser.{
  Parser, init, LineState, line_bad, line_ok, line_incomplete, LineEnd, found, cut, scan_line,
  skip_past, find_byte, ProcessState, in_line, in_head, in_body, set_line, read_version, read_url,
  after_method, read_method, request_line_parse, Round, stop, again, head_field, head_round, resume,
  loop, request_head_parse, request_body_parse, after_line, after_head_ok, after_head, after_body,
  sized_body, body_round, round_of, parse_round, parse,
}

pub record InRange (n : ℕ) (p : Parser) : Type 0 where
  pub len_is : p.len ≡ n
  pub cur_le : p.cur ≤ n
  pub l_beg_le : p.l_beg ≤ n
  pub l_end_le : p.l_end ≤ n
  pub size_le : p.request.parse_size ≤ n

abbrev EndsIn : ℕ → ℕ → LineEnd → Type 0
EndsIn lo hi (found e) = (lo ≤ e) × (e ≤ hi)
EndsIn lo hi (cut e) = (lo ≤ e) × (e ≤ hi)

EndsIn-mono :
    (lo lo' hi hi' : ℕ) (e : LineEnd) → lo' ≤ lo → hi ≤ hi' → EndsIn lo hi e → EndsIn lo' hi' e
EndsIn-mono lo lo' hi hi' (found e) p q h = omega arith
EndsIn-mono lo lo' hi hi' (cut e) p q h = omega arith

scan_line_bounds : (m : Memory) (left cur : ℕ) → EndsIn cur (cur + left) (scan_line m left cur)
unfolding scan_line
scan_line_bounds m zero cur = omega arith
scan_line_bounds m (suc zero) cur = ground arith
scan_line_bounds m (suc (suc left)) cur = elim (Bool-cases (m cur == b'\r')) [
  | inr other ↦
      rw (other, scan_line)
        (EndsIn-mono (cur + 1) cur (cur + 1 + suc left) (cur + suc (suc left)) _ (omega arith)
          (omega arith) (scan_line_bounds m (suc left) (cur + 1)))
  | inl cr ↦ elim (Bool-cases (m (cur + 1) == b'\n')) [
    | inl lf ↦ rw (cr, lf, scan_line) (omega arith)
    | inr other ↦
        rw (cr, other, scan_line)
          (EndsIn-mono (cur + 2) cur (cur + 2 + left) (cur + suc (suc left)) _ (omega arith)
            (omega arith) (scan_line_bounds m left (cur + 2)))
  ]
]

pub skip_past_bounds :
    (m : Memory) (c left cur : ℕ)
    → (cur ≤ skip_past m c left cur) × (skip_past m c left cur ≤ cur + left)
unfolding skip_past
skip_past_bounds m c zero cur = omega arith
skip_past_bounds m c (suc left) cur = ground (arith, skip_past_bounds m c left (cur + 1))

pub find_byte_bounds :
    (m : Memory) (c left cur : ℕ)
    → (cur ≤ find_byte m c left cur) × (find_byte m c left cur ≤ cur + left)
unfolding find_byte
find_byte_bounds m c zero cur = omega arith
find_byte_bounds m c (suc left) cur = ground (arith, find_byte_bounds m c left (cur + 1))

module _ (n : ℕ) where
  read_version-InRange : (p : Parser) → InRange n p → InRange n (read_version p)
  unfolding read_version
  read_version-InRange p h = ground arith

  read_url-InRange : (p : Parser) → InRange n p → p.cur ≤ p.l_end → InRange n (read_url p)
  unfolding read_url
  read_url-InRange p h c =
      let after = skip_past p.buf b' ' (p.l_end - p.cur) p.cur in
      let bounds = skip_past_bounds p.buf b' ' (p.l_end - p.cur) p.cur in
      elim (Bool-cases (after == p.l_end)) [
        | inl e ↦ rw e (omega (arith, h, bounds))
        | inr ne ↦ rw ne (read_version-InRange _ (omega (arith, h, bounds)))
      ]

  after_method-InRange : (p : Parser) → InRange n p → p.cur ≤ p.l_end → InRange n (after_method p)
  unfolding after_method
  after_method-InRange p h c = ground (arith, read_url-InRange (record p { cur = p.cur + 1 }))

  read_method-InRange : (p : Parser) → InRange n p → p.cur ≡ p.l_beg → InRange n (read_method p)
  unfolding read_method
  read_method-InRange p h c = ground (
    arith,
    after_method-InRange
        (record (set_line p (record p.request.line { method = some get })) { cur = p.cur + 3 }),
    after_method-InRange
        (record (set_line p (record p.request.line { method = some post })) { cur = p.cur + 4 }),
  )

  request_line_parse-InRange : (p : Parser) → InRange n p → InRange n (request_line_parse p)
  unfolding request_line_parse
  request_line_parse-InRange p h = go (scan_line p.buf (p.len - p.cur) p.cur) refl
    where
      go :
          (e : LineEnd)
          → scan_line p.buf (p.len - p.cur) p.cur ≡ e
          → InRange n (request_line_parse p)
      go (found e) q =
          let b =
            subst (EndsIn p.cur (p.cur + (p.len - p.cur))) q
              (scan_line_bounds p.buf (p.len - p.cur) p.cur) in
          rw (q, request_line_parse)
            (read_method-InRange (record p { l_end = e; cur = p.l_beg }) (omega (arith, h, b)) refl)
      go (cut e) q =
          let b =
            subst (EndsIn p.cur (p.cur + (p.len - p.cur))) q
              (scan_line_bounds p.buf (p.len - p.cur) p.cur) in
          rw (q, request_line_parse) (omega (arith, h, b))

  abbrev pub RoundInRange : Result Round → Type 0
  RoundInRange (ok (stop p)) = InRange n p
  RoundInRange (ok (again p)) = InRange n p
  RoundInRange (fault e) = Unit

  head_field-InRange : (p : Parser) → InRange n p → p.l_beg ≤ p.l_end → RoundInRange (head_field p)
  unfolding head_field
  head_field-InRange p h c = ground (arith, find_byte_bounds p.buf b' ' (p.l_end - p.l_beg) p.l_beg)

  pub head_round-InRange : (p : Parser) → InRange n p → RoundInRange (head_round p)
  unfolding head_round
  head_round-InRange p h = ground (
    arith,
    skip_past_bounds p.buf b'\r' (p.len - p.l_end) p.l_end,
    head_field-InRange (record p {
      cur = skip_past p.buf b'\r' (p.len - p.l_end) p.l_end + 1;
      l_beg = p.l_end;
      l_end = skip_past p.buf b'\r' (p.len - p.l_end) p.l_end + 1;
      line_state = line_incomplete;
    }),
  )

  pub resume-InRange :
      (rest : Parser → Result Parser) {q : Parser}
      → ((p : Parser) → InRange n p → rest p ≡ ok q → InRange n q)
      → (r : Result Round) → RoundInRange r
      → resume rest r ≡ ok q
      → InRange n q
  resume-InRange rest later (fault e) k x = cc
  resume-InRange rest later (ok (stop p)) k x = subst (InRange n) (ground arith) k
  resume-InRange rest later (ok (again p)) k x = later p k x

  -- A loop keeps what each of its rounds keeps.
  pub loop-InRange :
      (round : Parser → Result Round)
      → ((p : Parser) → InRange n p → RoundInRange (round p))
      → (fuel : ℕ) (p : Parser) {q : Parser} → InRange n p
      → loop round fuel p ≡ ok q
      → InRange n q
  unfolding loop
  loop-InRange round keep zero p h e = ground arith
  loop-InRange round keep (suc fuel) p {q} h e = elim (Bool-cases (p.cur == p.len)) [
    | inl done ↦ subst (InRange n) (ground arith) h
    | inr more ↦
        resume-InRange (loop round fuel) (λ p' h' e'. loop-InRange round keep fuel p' h' e')
          (round p) (keep p h) (rw (more, loop) at e)
  ]

  after_line-InRange : (s : LineState) (p : Parser) → InRange n p → RoundInRange (after_line s p)
  unfolding after_line
  after_line-InRange line_bad p h = omega (arith, h)
  after_line-InRange line_ok p h = omega (arith, h)
  after_line-InRange line_incomplete p h = omega (arith, h)

  after_head-InRange : (s : LineState) (p : Parser) → InRange n p → RoundInRange (after_head s p)
  unfolding after_head after_head_ok
  after_head-InRange s p h = ground arith

  after_body-InRange : (s : LineState) (p : Parser) → InRange n p → RoundInRange (after_body s p)
  unfolding after_body
  after_body-InRange s p h = ground arith

  sized_body-InRange : (v : Option ℤ) (p : Parser) → InRange n p → RoundInRange (sized_body v p)
  unfolding sized_body request_body_parse after_body
  sized_body-InRange v p h = ground arith

  module _ (stoi : Bytes → Option ℤ) (head_fuel : ℕ) where
    head_part-InRange :
        (r : Result Parser)
        → ((q : Parser) → r ≡ ok q → InRange n q)
        → RoundInRange (do q ← r; after_head q.line_state q)
    head_part-InRange (ok q) h = after_head-InRange q.line_state q (h q refl)
    head_part-InRange (fault e) h = tt

    round_of-InRange :
        (s : ProcessState) (p : Parser) → InRange n p → RoundInRange (round_of stoi head_fuel s p)
    unfolding round_of body_round
    round_of-InRange in_line p h = after_line-InRange _ _ (request_line_parse-InRange p h)
    round_of-InRange in_head p h =
        head_part-InRange (request_head_parse head_fuel p)
          (λ q e. loop-InRange head_round head_round-InRange head_fuel p h e)
    round_of-InRange in_body p h =
        ground
          (arith, sized_body-InRange (stoi (get_pair p.request.head (codes "Content-Length")).1) p)

    pub parse_round-InRange :
        (p : Parser) → InRange n p → RoundInRange (parse_round stoi head_fuel p)
    unfolding parse_round
    parse_round-InRange p h = round_of-InRange p.process _ (omega (arith, h))

-- Whatever the bytes are, and whatever stands behind them in memory, a parser that returns has its
-- cursors within the `len` bytes that it was given, and `parseSize_` is at most `len`: the bytes that
-- the server takes from the buffer for a request are there.
pub parse-InRange :
    (stoi : Bytes → Option ℤ) (head_fuel fuel : ℕ) (m : Memory) (len : ℕ) {q : Parser}
    → parse stoi head_fuel fuel (init m len) ≡ ok q
    → InRange len q
unfolding parse
parse-InRange stoi head_fuel fuel m len e =
    loop-InRange len (parse_round stoi head_fuel) (parse_round-InRange len stoi head_fuel) fuel
      (init m len) (omega arith) e
