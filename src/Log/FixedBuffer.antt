-- ===== src/Log/FixedBuffer.antt =====
-- src/log/adlBuffer.h: the class template `adlBuffer<SIZE>`, which holds a text and its NUL, and the
-- guarded appends of src/log/logStream.cpp, which drop what does not fit.
use adl_server.Base.{
  ℕ, ◌+◌, ◌-◌, ◌≤◌, ◌<◌, true, false, [], ◌∷◌, ◌++◌, Bytes, length, Memory, slice, slice-append,
  slice_eq, store, ltb, leb, lt→ltb, le→leb, ◌==◌, if◌then◌else◌, ◌≡◌, refl, sym, ap, ◌∙◌,
  append-nil, Bool-cases, inl, inr, Result, ok, check, assert_failed, ◌>>=◌, ◌>>◌, arith,
}

pub record Buffer : Type 0 where
  pub cells : Memory
  pub len : ℕ

-- `memcpy(buf_ + at, bytes, length)`.
unfoldable pub copy : Memory → ℕ → Bytes → Memory
copy m at [] = m
copy m at (x ∷ xs) = copy (store m at x) (at + 1) xs

unfoldable pub text : Buffer → Bytes
text b = slice b.cells 0 b.len

module _ (size : ℕ) where
  unfoldable pub set_len : ℕ → Buffer → Result Buffer
  set_len n b = do
    check (ltb n size) assert_failed
    ok (record b { len = n; cells = store b.cells n 0 })

  unfoldable pub add_len : ℕ → Buffer → Result Buffer
  add_len n b = set_len (n + b.len) b

  unfoldable pub avail : Buffer → Result ℕ
  avail b = do check (ltb b.len size) assert_failed; ok (size - 1 - b.len)

  -- `append(buf, len)`.
  unfoldable pub append : Bytes → Buffer → Result Buffer
  append [] b = ok b
  append (x ∷ xs) b = do
    free ← avail b
    check (leb (length (x ∷ xs)) free) assert_failed
    add_len (length (x ∷ xs)) (record b { cells = copy b.cells b.len (x ∷ xs) })

  -- `append(s, len)` of a std::string, which copies an empty one too.
  unfoldable pub append_string : Bytes → Buffer → Result Buffer
  append_string bytes b = do
    free ← avail b
    check (leb (length bytes) free) assert_failed
    add_len (length bytes) (record b { cells = copy b.cells b.len bytes })

  -- `append(c)`.
  unfoldable pub append_char : ℕ → Buffer → Result Buffer
  append_char c b = do
    free ← avail b
    check (leb 1 free) assert_failed
    add_len 1 (record b { cells = store b.cells b.len c })

  -- `reset()`.
  unfoldable pub reset : Buffer → Result Buffer
  reset b = set_len 0 b

  -- `operator<<` of a text: what does not fit is dropped.
  unfoldable pub put : Bytes → Buffer → Result Buffer
  put bytes b = do free ← avail b; if leb (length bytes) free then append bytes b else ok b

  -- There is room for the NUL.
  abbrev pub IsValid : Buffer → Type 0
  IsValid b = b.len < size

pub store_before : (m : Memory) (at x k : ℕ) → k < at → store m at x k ≡ m k
unfolding store
store_before m at x k h = let e : (k == at) ≡ false = ground (arith, h) in rw e

pub copy_before : (xs : Bytes) (m : Memory) (at k : ℕ) → k < at → copy m at xs k ≡ m k
unfolding copy
copy_before [] m at k h = refl
copy_before (x ∷ xs) m at k h =
    copy_before xs (store m at x) (at + 1) k (omega (arith, h)) ∙ store_before m at x k h

store_at : (m : Memory) (at x : ℕ) → store m at x at ≡ x
unfolding store
store_at m at x = let e : (at == at) ≡ true = ground arith in rw e

slice-copy : (xs : Bytes) (m : Memory) (at : ℕ) → slice (copy m at xs) at (length xs) ≡ xs
unfolding copy slice
slice-copy [] m at = refl
slice-copy (x ∷ xs) m at =
    let here = copy_before xs (store m at x) (at + 1) at (omega arith) ∙ store_at m at x in
    let there = slice-copy xs (store m at x) (at + 1) in rw (here, there)

-- The cells behind a copy and its NUL.
pub slice_extended :
    (m : Memory) (len : ℕ) (xs : Bytes)
    → slice (store (copy m len xs) (length xs + len) 0) 0 (length xs + len) ≡ slice m 0 len ++ xs
slice_extended m len xs =
    let total : length xs + len ≡ len + length xs = omega arith in
    let start : 0 + len ≡ len = omega arith in
    slice_eq _ (copy m len xs) 0 0 (length xs + len)
      (λ k h. store_before (copy m len xs) (length xs + len) 0 (0 + k) (omega (arith, h)))
    ∙ ap (slice (copy m len xs) 0) total
    ∙ slice-append (copy m len xs) 0 len (length xs)
    ∙ ap (λ (t : Bytes). t ++ slice (copy m len xs) (0 + len) (length xs))
        (slice_eq (copy m len xs) m 0 0 len
          (λ k h. copy_before xs m len (0 + k) (omega (arith, h))))
    ∙ ap (λ (t : Bytes). slice m 0 len ++ t)
        (ap (λ (t : ℕ). slice (copy m len xs) t (length xs)) start ∙ slice-copy xs m len)

module _ (size : ℕ) where
  -- A text that fits, with its NUL, is put behind the one that is there.
  pub append_fits :
      (bytes : Bytes) (b : Buffer)
      → IsValid size b
      → length bytes + b.len < size
      → (c : Buffer) × (append size bytes b ≡ ok c) × IsValid size c × (text c ≡ text b ++ bytes)
  unfolding append avail add_len set_len text
  append_fits [] b v h = (b, refl, v, sym (append-nil _))
  append_fits (x ∷ xs) b v h =
      let e = lt→ltb b.len size v in
      let f = le→leb (length (x ∷ xs)) (size - 1 - b.len) (omega (arith, h, v)) in
      let g = lt→ltb (length (x ∷ xs) + b.len) size h in
      (_, rw (e, f, g), h, slice_extended b.cells b.len (x ∷ xs))

  pub append_string_fits :
      (bytes : Bytes) (b : Buffer)
      → IsValid size b
      → length bytes + b.len < size
      → (c : Buffer) × (append_string size bytes b ≡ ok c)
        × IsValid size c
        × (text c ≡ text b ++ bytes)
  unfolding append_string avail add_len set_len text
  append_string_fits bytes b v h =
      let e = lt→ltb b.len size v in
      let f = le→leb (length bytes) (size - 1 - b.len) (omega (arith, h, v)) in
      let g = lt→ltb (length bytes + b.len) size h in
      (_, rw (e, f, g), h, slice_extended b.cells b.len bytes)

  pub append_char_fits :
      (c : ℕ) (b : Buffer)
      → IsValid size b
      → 1 + b.len < size
      → (d : Buffer) × (append_char size c b ≡ ok d)
        × IsValid size d
        × (text d ≡ text b ++ (c ∷ []))
  unfolding append_char avail add_len set_len text copy
  append_char_fits c b v h =
      let e = lt→ltb b.len size v in
      let f = le→leb 1 (size - 1 - b.len) (omega (arith, h, v)) in
      let g = lt→ltb (1 + b.len) size h in
      (_, rw (e, f, g), h, slice_extended b.cells b.len (c ∷ []))

  -- A valid buffer takes a text whole where it fits with its NUL, and not at all where it does not;
  -- no assertion fails, and it stays valid.
  pub put_total :
      (bytes : Bytes) (b : Buffer)
      → IsValid size b
      → (c : Buffer) × (put size bytes b ≡ ok c)
        × IsValid size c
        × (length bytes + b.len < size → text c ≡ text b ++ bytes)
        × (size ≤ length bytes + b.len → c ≡ b)
  unfolding put avail
  put_total bytes b v =
      let e = lt→ltb b.len size v in
      elim (Bool-cases (leb (length bytes) (size - 1 - b.len))) [
        | inl y ↦
            let fits : length bytes + b.len < size = ground (arith, y, v) in
            let (c, f, valid, extended) = append_fits bytes b v fits in
            (c, rw (e, y) f, valid, λ h. extended, λ h. absurd (omega (arith, fits, h)))
        | inr n ↦
            let over : size ≤ length bytes + b.len = ground (arith, n, v) in
            (b, rw (e, n), v, λ h. absurd (omega (arith, over, h)), λ h. refl)
      ]
