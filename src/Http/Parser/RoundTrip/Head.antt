-- ===== src/Http/Parser/RoundTrip/Head.antt =====
-- The header lines, up to the blank one.
use adl_server.Base.{
  ℕ, zero, suc, ◌+◌, ◌-◌, ◌≤◌, ◌<◌, ◌≡◌, refl, ap, sym, subst, ◌∙◌, true, false, List, [], ◌∷◌,
  ◌++◌, Bytes, length, length-append, append_assoc, Memory, slice, ◌==◌, arith, ok,
}
use adl_server.Http.Request.{HeadMap, add}
use adl_server.Http.Parser.Grammar.{print_fields, fields_length, add_all, AreFields}
use adl_server.Http.Parser.Locate.{
  At, Free, Free-append, At-append, slice-At-length, skip_past-At, find_byte-At,
}
use adl_server.Http.Parser.{
  Parser, line_ok, line_incomplete, skip_past, find_byte, stop, again, head_field, head_round, loop,
}

abbrev pub with_head : Parser → HeadMap → Parser
with_head p m = record p { request = record p.request { head = m } }

-- One header line between `l_beg_` and `l_end_`.
head_field-At :
    (p : Parser) (k v rest : Bytes)
    → At p.buf p.l_beg (k ++ (b':' ∷ b' ' ∷ (v ++ rest)))
    → Free b' ' k
    → p.l_end ≡ p.l_beg + length k + length v + 4
    → head_field p
      ≡ ok (
          again (record (with_head p (add k v p.request.head)) {
            cur = p.l_beg + length k + 1;
            line_state = line_ok;
          }))
unfolding head_field
head_field-At p k v rest h f e = rw (found_blank, inside, nonempty, key, value)
  where
    found_blank : find_byte p.buf b' ' (p.l_end - p.l_beg) p.l_beg ≡ p.l_beg + length k + 1
    found_blank =
        find_byte-At p.buf b' ' (p.l_end - p.l_beg) p.l_beg (k ++ (b':' ∷ [])) (v ++ rest)
          (subst (At p.buf p.l_beg) (sym (append_assoc k (b':' ∷ []) (b' ' ∷ (v ++ rest)))) h)
          (Free-append b' ' k (b':' ∷ []) f (refl, tt)) (omega (arith, length-append k (b':' ∷ [])))
        ∙ omega (arith, length-append k (b':' ∷ []))

    inside : (p.l_beg + length k + 1 == p.l_end) ≡ false
    inside = ground arith

    nonempty : (p.l_beg + length k + 1 == p.l_beg) ≡ false
    nonempty = ground arith

    key : slice p.buf p.l_beg (p.l_beg + length k + 1 - 1 - p.l_beg) ≡ k
    key = slice-At-length p.buf p.l_beg _ k (omega arith) (At-append p.buf p.l_beg k _ h).0

    value :
        slice p.buf (p.l_beg + length k + 1 + 1) (p.l_end - 2 - (p.l_beg + length k + 1 + 1)) ≡ v
    value =
        slice-At-length p.buf (p.l_beg + length k + 1 + 1) _ v (omega arith)
          (At-append p.buf (p.l_beg + length k + 1 + 1) v rest
            (At-append p.buf p.l_beg k _ h).1.1.1).0

-- The round that reads a header line.
pub field_round :
    (p : Parser) (k v more : Bytes)
    → At p.buf p.l_end (k ++ (b':' ∷ b' ' ∷ (v ++ (b'\r' ∷ b'\n' ∷ more))))
    → Free b' ' k
    → Free b'\r' k
    → Free b'\r' v
    → p.l_end + length k + length v + 4 ≤ p.len
    → head_round p
      ≡ ok (
          again (record (with_head p (add k v p.request.head)) {
            l_beg = p.l_end;
            l_end = p.l_end + length k + length v + 4;
            cur = p.l_end + length k + 1;
            line_state = line_ok;
          }))
unfolding head_round
field_round p k v more h f g w l =
    rw (found_cr, inside, is_lf, not_blank, whole)
      (head_field-At
        (record p {
          l_beg = p.l_end;
          l_end = p.l_end + length k + length v + 4;
          cur = p.l_end + length k + length v + 4;
          line_state = line_incomplete;
        })
        k v (b'\r' ∷ b'\n' ∷ more) h f refl)
  where
    text : Bytes
    text = k ++ (b':' ∷ b' ' ∷ v)

    size : length text ≡ length k + length v + 2
    size = omega (arith, length-append k (b':' ∷ b' ' ∷ v))

    regroup : text ++ (b'\r' ∷ b'\n' ∷ more) ≡ k ++ (b':' ∷ b' ' ∷ (v ++ (b'\r' ∷ b'\n' ∷ more)))
    regroup = append_assoc k (b':' ∷ b' ' ∷ v) (b'\r' ∷ b'\n' ∷ more)

    found_cr : skip_past p.buf b'\r' (p.len - p.l_end) p.l_end ≡ p.l_end + length k + length v + 3
    found_cr =
        skip_past-At p.buf b'\r' (p.len - p.l_end) p.l_end text (b'\n' ∷ more)
          (subst (At p.buf p.l_end) (sym regroup) h)
          (Free-append b'\r' k (b':' ∷ b' ' ∷ v) g (refl, (refl, w))) (omega (arith, size))
        ∙ omega (arith, size)

    inside : (p.l_end + length k + length v + 3 == p.len) ≡ false
    inside = ground arith

    is_lf : p.buf (p.l_end + length k + length v + 3) ≡ b'\n'
    is_lf =
        subst (λ i. p.buf i ≡ b'\n') (omega (arith, size))
          (At-append p.buf p.l_end text (b'\r' ∷ b'\n' ∷ more)
            (subst (At p.buf p.l_end) (sym regroup) h)).1.1.0

    not_blank : (p.l_end + 2 == p.l_end + length k + length v + 3 + 1) ≡ false
    not_blank = ground arith

    whole : p.l_end + length k + length v + 3 + 1 ≡ p.l_end + length k + length v + 4
    whole = omega arith

-- The round that reads the blank line.
blank_round :
    (p : Parser) (rest : Bytes)
    → At p.buf p.l_end (b'\r' ∷ b'\n' ∷ rest)
    → p.l_end + 2 ≤ p.len
    → head_round p
      ≡ ok (
          stop (record p {
            l_beg = p.l_end;
            l_end = p.l_end + 2;
            cur = p.l_end + 2;
            line_state = line_ok;
          }))
unfolding head_round
blank_round p rest h l = rw (found_cr, inside, h.1.0, blank, whole)
  where
    found_cr : skip_past p.buf b'\r' (p.len - p.l_end) p.l_end ≡ p.l_end + 1
    found_cr =
        skip_past-At p.buf b'\r' (p.len - p.l_end) p.l_end [] (b'\n' ∷ rest) h tt (omega arith)
        ∙ omega arith

    inside : (p.l_end + 1 == p.len) ≡ false
    inside = ground arith

    blank : (p.l_end + 2 == p.l_end + 1 + 1) ≡ true
    blank = ground arith

    whole : p.l_end + 1 + 1 ≡ p.l_end + 2
    whole = omega arith

-- The state behind the blank line.
abbrev pub head_done : Parser → List (Bytes × Bytes) → Parser
head_done p fs = record (with_head p (add_all fs p.request.head)) {
  l_beg = p.l_end + fields_length fs - 2;
  l_end = p.l_end + fields_length fs;
  cur = p.l_end + fields_length fs;
  line_state = line_ok;
}

pub fields_length_ge : (fs : List (Bytes × Bytes)) → 2 ≤ fields_length fs
fields_length_ge [] = omega arith
fields_length_ge ((k, v) ∷ fs) = omega (arith, fields_length_ge fs)

pub field_tail :
    (m : Memory) (i : ℕ) (k v more : Bytes)
    → At m i (k ++ (b':' ∷ b' ' ∷ (v ++ (b'\r' ∷ b'\n' ∷ more))))
    → At m (i + length k + length v + 4) more
field_tail m i k v more h =
    let behind_key = (At-append m i k (b':' ∷ b' ' ∷ (v ++ (b'\r' ∷ b'\n' ∷ more))) h).1.1.1 in
    let behind_value =
      (At-append m (i + length k + 1 + 1) v (b'\r' ∷ b'\n' ∷ more) behind_key).1.1.1 in
    subst (λ j. At m j more) (omega arith) behind_value

abbrev pub after_field : Parser → Bytes → Bytes → Parser
after_field p k v = record (with_head p (add k v p.request.head)) {
  l_beg = p.l_end;
  l_end = p.l_end + length k + length v + 4;
  cur = p.l_end + length k + 1;
  line_state = line_ok;
}

head_done_cons :
    (p : Parser) (k v : Bytes) (fs : List (Bytes × Bytes))
    → head_done (after_field p k v) fs ≡ head_done p ((k, v) ∷ fs)
head_done_cons p k v fs =
    let e : p.l_end + length k + length v + 4 + fields_length fs
        ≡ p.l_end + (length k + length v + 4 + fields_length fs) =
      omega arith in
    rw e

-- Enough fuel is one round for each line.
pub head_loop-At :
    (fs : List (Bytes × Bytes)) (fuel : ℕ) (p : Parser) (rest : Bytes)
    → At p.buf p.l_end (print_fields fs rest)
    → AreFields fs
    → p.l_end + fields_length fs ≤ p.len
    → p.cur < p.len
    → length fs < fuel
    → loop head_round fuel p ≡ ok (head_done p fs)
unfolding loop
head_loop-At fs zero p rest h f l c n = absurd (omega arith)
head_loop-At [] (suc fuel) p rest h f l c n =
    let more : (p.cur == p.len) ≡ false = ground arith in
    let before : p.l_end + 2 - 2 ≡ p.l_end = omega arith in
    rw (more, loop) (rw (blank_round p rest h l) (rw before))
head_loop-At ((k, v) ∷ fs) (suc fuel) p rest h f l c n =
    let more : (p.cur == p.len) ≡ false = ground arith in
    let size = fields_length_ge fs in
    let tail =
      head_loop-At fs fuel (after_field p k v) rest
        (field_tail p.buf p.l_end k v (print_fields fs rest) h) f.3 (omega arith) (omega arith)
        (omega arith) in
    rw (more, loop)
      (rw (field_round p k v (print_fields fs rest) h f.0 f.1 f.2 (omega arith))
        (tail ∙ ap ok (head_done_cons p k v fs)))

-- What stands behind the blank line.
pub fields_tail :
    (m : Memory) (fs : List (Bytes × Bytes)) (i : ℕ) (rest : Bytes)
    → At m i (print_fields fs rest)
    → At m (i + fields_length fs) rest
fields_tail m [] i rest h = subst (λ j. At m j rest) (omega arith) h.1.1
fields_tail m ((k, v) ∷ fs) i rest h =
    subst (λ j. At m j rest) (omega arith)
      (fields_tail m fs (i + length k + length v + 4) rest
        (field_tail m i k v (print_fields fs rest) h))
