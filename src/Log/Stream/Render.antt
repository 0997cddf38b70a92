-- ===== src/Log/Stream/Render.antt =====
-- A chain of `<<` writes what a plain concatenation of the operands that fit would be.
use adl_server.Base.{
  ℕ, suc, ◌+◌, ◌-◌, ◌<◌, true, false, List, [], ◌∷◌, ◌++◌, append-nil, append_assoc, Bytes, codes,
  length, length-append, length-slice, take_all, slice, slice_eq, Memory, store, leb, lt→ltb,
  if◌then◌else◌, Bool-cases, inl, inr, none, some, Result, ok, ◌≡◌, refl, sym, ap, ◌∙◌, arith,
}
use adl_server.Log.FixedBuffer.{
  Buffer, copy, text, avail, add_len, set_len, IsValid, append_fits, append_string_fits,
  append_char_fits, slice_extended, store_before,
}
use adl_server.Log.Stream.{
  Operand, flag, integer, formatted, char, c_string, string, buffer, buf_len, end_line, when_fits,
  print_into, append_c_string, stream, stream_all,
}

-- What an operand reads as.
unfoldable pub shown : Operand → Bytes
shown (flag true) = codes "1"
shown (flag false) = codes "0"
shown (integer t) = t
shown (formatted t) = t
shown (char c) = c ∷ []
shown (c_string none) = codes "(null)"
shown (c_string (some t)) = t
shown (string t) = t
shown (buffer v) = text v
shown (buf_len t) = t
shown end_line = b'\n' ∷ []

-- The room that is asked for.
unfoldable pub needed : Operand → ℕ
needed (formatted t) = 32
needed o = length (shown o)

-- Formatted numbers and pointers are short: snprintf cuts none of them off.
abbrev pub IsShort : Operand → Type 0
IsShort (formatted t) = length t < 32
IsShort _ = Unit {0}

abbrev pub AreShort : List Operand → Type 0
AreShort [] = Unit {0}
AreShort (o ∷ os) = IsShort o × AreShort os

-- The line in a buffer of `size` bytes of which `used` are taken: each operand that has room is there,
-- one that has none is left out, and those after it still come.
unfoldable pub render : ℕ → ℕ → List Operand → Bytes
render size used [] = []
render size used (o ∷ os) =
    let part = if leb (needed o) (size - 1 - used) then shown o else [] in
    part ++ render size (used + length part) os

length-text : (b : Buffer) → length (text b) ≡ b.len
unfolding text
length-text b = length-slice b.cells 0 b.len

copy-append :
    (xs ys : Bytes) (m : Memory) (at : ℕ)
    → copy m at (xs ++ ys) ≡ copy (copy m at xs) (length xs + at) ys
unfolding copy
copy-append [] ys m at = let e : 0 + at ≡ at = omega arith in rw e
copy-append (x ∷ xs) ys m at =
    let e : length xs + (at + 1) ≡ suc (length xs) + at = omega arith in
    copy-append xs ys (store m at x) (at + 1)
    ∙ ap (λ (n : ℕ). copy (copy (store m at x) (at + 1) xs) n ys) e

-- The NUL of snprintf and the one of `setlen` fall on the same cell.
slice_printed :
    (m : Memory) (len : ℕ) (t : Bytes)
    → slice (store (copy m len (t ++ (0 ∷ []))) (length t + len) 0) 0 (length t + len)
      ≡ slice m 0 len ++ t
unfolding copy
slice_printed m len t =
    slice_eq _ (store (copy m len t) (length t + len) 0) 0 0 (length t + len) same
    ∙ slice_extended m len t
  where
    same :
        (k : ℕ)
        → k < length t + len
        → store (copy m len (t ++ (0 ∷ []))) (length t + len) 0 (0 + k)
          ≡ store (copy m len t) (length t + len) 0 (0 + k)
    same k h =
        store_before (copy m len (t ++ (0 ∷ []))) (length t + len) 0 (0 + k) (omega (arith, h))
        ∙ ap (λ (f : Memory). f (0 + k)) (copy-append t (0 ∷ []) m len)

module _ (size : ℕ) where
  abbrev pub Puts : Buffer → Result Buffer → Bytes → Type 0
  Puts b m t = (c : Buffer) × (m ≡ ok c) × IsValid size c × (text c ≡ text b ++ t)

  when_fits-Puts :
      (n : ℕ) (act : Buffer → Result Buffer) (t : Bytes) (b : Buffer)
      → IsValid size b
      → (n + b.len < size → Puts b (act b) t)
      → Puts b (when_fits size n act b) (if leb n (size - 1 - b.len) then t else [])
  unfolding when_fits avail
  when_fits-Puts n act t b v h =
      let e = lt→ltb b.len size v in
      elim (Bool-cases (leb n (size - 1 - b.len))) [
        | inl y ↦ rw (e, y) (h (ground (arith, y, v)))
        | inr m ↦ rw (e, m) (b, refl, v, sym (append-nil (text b)))
      ]

  print_into-Puts :
      (t : Bytes) (b : Buffer) → length t < 32 → 32 + b.len < size → Puts b (print_into size t b) t
  unfolding print_into add_len set_len text
  print_into-Puts t b short h =
      let whole = take_all 31 t (omega (arith, short)) in
      let g = lt→ltb (length t + b.len) size (omega (arith, short, h)) in
      (
        _,
        rw g,
        omega (arith, short, h),
        ap
              (λ (z : Bytes).
                slice (store (copy b.cells b.len (z ++ (0 ∷ []))) (length t + b.len) 0) 0
                  (length t + b.len))
              whole
            ∙ slice_printed b.cells b.len t,
      )

  -- What one operand adds.
  part_of : Operand → Buffer → Bytes
  part_of o b = if leb (needed o) (size - 1 - b.len) then shown o else []

  stream-Puts :
      (o : Operand) (b : Buffer)
      → IsShort o
      → IsValid size b
      → Puts b (stream size o b) (part_of o b)
  unfolding part_of stream needed shown append_c_string
  stream-Puts (flag true) b s v =
      when_fits-Puts 1 _ (codes "1") b v (append_fits size (codes "1") b v)
  stream-Puts (flag false) b s v =
      when_fits-Puts 1 _ (codes "0") b v (append_fits size (codes "0") b v)
  stream-Puts (integer t) b s v = when_fits-Puts (length t) _ t b v (append_string_fits size t b v)
  stream-Puts (formatted t) b s v = when_fits-Puts 32 _ t b v (print_into-Puts t b s)
  stream-Puts (char c) b s v = when_fits-Puts 1 _ (c ∷ []) b v (append_fits size (c ∷ []) b v)
  stream-Puts (c_string none) b s v =
      when_fits-Puts 6 _ (codes "(null)") b v (append_fits size (codes "(null)") b v)
  stream-Puts (c_string (some t)) b s v = when_fits-Puts (length t) _ t b v (append_fits size t b v)
  stream-Puts (string t) b s v = when_fits-Puts (length t) _ t b v (append_string_fits size t b v)
  stream-Puts (buffer w) b s v = rw (length-text w) (
      when_fits-Puts w.len _ (text w) b v
        (λ h. append_fits size (text w) b v (omega (arith, h, length-text w))))
  stream-Puts (buf_len t) b s v = when_fits-Puts (length t) _ t b v (append_fits size t b v)
  stream-Puts end_line b s v = when_fits-Puts 1 _ (b'\n' ∷ []) b v (append_char_fits size b'\n' b v)

  -- A chain of `<<` on a valid buffer never fails an assertion and leaves it valid: behind the text
  -- that was there stand the operands that have room, in order and whole, and none of the others.
  pub stream_all-render :
      (os : List Operand) (b : Buffer)
      → AreShort os
      → IsValid size b
      → Puts b (stream_all size os b) (render size b.len os)
  unfolding stream_all render part_of
  stream_all-render [] b s v = (b, refl, v, sym (append-nil (text b)))
  stream_all-render (o ∷ os) b (s, rest) v =
      let (c, e, w, t) = stream-Puts o b s v in
      let (d, f, x, u) = stream_all-render os c rest w in
      let grown : c.len ≡ b.len + length (part_of o b) =
        sym (length-text c)
        ∙ ap (λ (z : Bytes). length z) t
        ∙ length-append (text b) (part_of o b)
        ∙ ap (λ (n : ℕ). n + length (part_of o b)) (length-text b) in
      (
        d,
        rw e f,
        x,
        u
            ∙ ap (λ (z : Bytes). z ++ render size c.len os) t
            ∙ append_assoc (text b) (part_of o b) (render size c.len os)
            ∙ ap (λ (n : ℕ). text b ++ (part_of o b ++ render size n os)) grown,
      )
