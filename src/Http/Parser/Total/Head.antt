-- ===== src/Http/Parser/Total/Head.antt =====
-- With no bare '\r' the header loop returns.
use adl_server.Base.{
  ℕ, zero, suc, ◌+◌, ◌-◌, ◌≤◌, ◌<◌, ◌≡◌, ◌≢◌, refl, ◌∙◌, ◌⊎◌, inl, inr, false, Memory, ◌==◌,
  Bool-cases, arith, Result, ok, fault, endless,
}
use adl_server.Http.Parser.Bounds.{InRange, RoundInRange, skip_past_bounds, head_round-InRange}
use adl_server.Http.Parser.Loop.{loop_step, loop_end}
use adl_server.Http.Parser.{
  Parser, line_incomplete, Round, stop, again, skip_past, head_field, head_round, resume, loop,
}

-- A '\r' before the last byte has a '\n' behind it.
abbrev pub NoBareCr : Memory → ℕ → Type 0
NoBareCr m len = (i : ℕ) → i + 1 < len → m i ≡ b'\r' → m (i + 1) ≡ b'\n'

-- The scan ends at the limit or behind the byte that it looks for.
skip_past_stop :
    (m : Memory) (c left cur : ℕ)
    → (skip_past m c left cur ≡ cur + left)
      ⊎ ((k : ℕ) × (skip_past m c left cur ≡ k + 1) × (m k ≡ c))
unfolding skip_past
skip_past_stop m c zero cur = inl (omega arith)
skip_past_stop m c (suc left) cur = elim (Bool-cases (m cur == c)) [
  | inl hit ↦ inr (cur, rw hit, ground arith)
  | inr miss ↦ elim (skip_past_stop m c left (cur + 1)) [
    | inl e ↦ inl (rw miss (e ∙ omega arith))
    | inr (k, e, h) ↦ inr (k, rw miss e, h)
  ]
]

-- A round that goes on has moved to the next line.
abbrev Moves : Parser → Result Round → Type 0
Moves p (ok (stop q)) = Unit
Moves p (ok (again q)) = (p.l_end < q.l_end) × (q.buf ≡ p.buf)
Moves p (fault e) = e ≢ endless

head_field-Moves :
    (p : Parser) (old : ℕ) → old < p.l_end → Moves (record p { l_end = old }) (head_field p)
unfolding head_field
head_field-Moves p old h = ground arith

-- The '\r' that the scan found has a '\n' behind it.
line_feed :
    (p : Parser)
    → p.l_end ≤ p.len
    → NoBareCr p.buf p.len
    → (skip_past p.buf b'\r' (p.len - p.l_end) p.l_end == p.len) ≡ false
    → p.buf (skip_past p.buf b'\r' (p.len - p.l_end) p.l_end) ≡ b'\n'
line_feed p r h more = elim (skip_past_stop p.buf b'\r' (p.len - p.l_end) p.l_end) [
  | inl e ↦ absurd (ground arith)
  | inr (k, e, cr) ↦
      let b = skip_past_bounds p.buf b'\r' (p.len - p.l_end) p.l_end in
      rw e (h k (ground (arith, b)) cr)
]

head_round-Moves : (p : Parser) → p.l_end ≤ p.len → NoBareCr p.buf p.len → Moves p (head_round p)
unfolding head_round
head_round-Moves p r h =
    let after = skip_past p.buf b'\r' (p.len - p.l_end) p.l_end in
    let b = skip_past_bounds p.buf b'\r' (p.len - p.l_end) p.l_end in
    elim (Bool-cases (after == p.len)) [
      | inl done ↦ rw done tt
      | inr more ↦ elim (Bool-cases (p.l_end + 2 == after + 1)) [
        | inl blank ↦ rw (more, line_feed p r h more, blank) tt
        | inr field ↦
            rw (more, line_feed p r h more, field)
              (head_field-Moves
                (record p {
                  cur = after + 1;
                  l_beg = p.l_end;
                  l_end = after + 1;
                  line_state = line_incomplete;
                })
                p.l_end (omega (arith, b)))
      ]
    ]

resume_total :
    (fuel n : ℕ) (p : Parser) (r : Result Round)
    → ((q : Parser)
        → InRange n q
        → NoBareCr q.buf n
        → n < q.l_end + fuel
        → loop head_round fuel q ≢ fault endless)
    → RoundInRange n r
    → Moves p r
    → NoBareCr p.buf n
    → n < p.l_end + suc fuel
    → resume (loop head_round fuel) r ≢ fault endless
resume_total fuel n p (fault e) ih v mv h f x = mv (ground arith)
resume_total fuel n p (ok (stop q)) ih v mv h f x = cc
resume_total fuel n p (ok (again q)) ih v mv h f x = ih q v (rw mv.1 h) (omega (arith, mv.0)) x

-- Enough fuel for the header loop: one round for each byte that is left.
pub head_loop_total :
    (fuel n : ℕ) (p : Parser)
    → InRange n p
    → NoBareCr p.buf n
    → n < p.l_end + fuel
    → loop head_round fuel p ≢ fault endless
head_loop_total zero n p v h f = absurd (omega (arith, v.l_end_le))
head_loop_total (suc fuel) n p v h f = elim (Bool-cases (p.cur == p.len)) [
  | inl done ↦ rw (loop_end head_round fuel p done) (λ e. cc)
  | inr more ↦ rw (loop_step head_round fuel p more refl) (
      resume_total fuel n p (head_round p) (λ q. head_loop_total fuel n q)
        (head_round-InRange n p v)
        (head_round-Moves p (omega (arith, v.l_end_le, v.len_is)) (rw (v.len_is) h)) h f)
]
