-- ===== src/Log/AsyncLogging/Flow.antt =====
-- No line is lost or moved between the threads of the logger, and no pointer is null where it is used.
use adl_server.Base.{
  ℕ, ◌+◌, ◌-◌, ◌<◌, true, false, List, [], ◌∷◌, ◌++◌, Bytes, length, Memory, leb, lt→ltb, le→leb,
  Bool-cases, Option, none, some, ok, ◌≡◌, refl, sym, ap, ◌∙◌, ◌⊎◌, inl, inr, append-nil,
  append_assoc, slice, arith,
}
use adl_server.Log.FixedBuffer.{Buffer, text, avail, IsValid, append_fits}
use adl_server.Log.AsyncLogging.{Logger, deref, next_buffer, texts, put_line, log_into, log}

-- A spare buffer that is there and empty.
abbrev pub IsSpare : Option Buffer → Type 0
IsSpare o = (b : Buffer) × (o ≡ some b) × (b.len ≡ 0)

-- The spare buffer is null just while full buffers wait.
abbrev pub Front : Logger → Type 0
Front s =
    ((s.trans ≡ []) × IsSpare s.prv)
    ⊎ ((x : Buffer) × (l : List Buffer) × (s.trans ≡ x ∷ l) × (s.prv ≡ none))

-- Between rounds the writer has two spare buffers and nothing to write. Within a round it has used
-- one of them and has a buffer to write, or both and at least two.
abbrev pub Idle : Logger → Type 0
Idle s = (s.busy ≡ false) × (s.need ≡ []) × IsSpare s.new_1 × IsSpare s.new_2

abbrev pub Busy : Logger → Type 0
Busy s =
    (s.busy ≡ true)
    × (s.new_1 ≡ none)
    × (((x : Buffer) × (s.need ≡ x ∷ []) × IsSpare s.new_2)
        ⊎ ((x y : Buffer) × (l : List Buffer) × (s.need ≡ x ∷ y ∷ l) × (s.new_2 ≡ none)))

pub record IsOrderly (size : ℕ) (s : Logger) : Type 0 where
  pub cur : (c : Buffer) × (s.cur ≡ some c) × IsValid size c
  pub front : Front s
  pub back : Idle s ⊎ Busy s

unfoldable pub cur_text : Option Buffer → Bytes
cur_text none = []
cur_text (some b) = text b

-- What was logged: what the file was given, then what waits, in the order of its writing.
unfoldable pub total : Logger → Bytes
total s = s.file ++ (texts s.need ++ (texts s.trans ++ cur_text s.cur))

pub texts-append : (k l : List Buffer) → texts (k ++ l) ≡ texts k ++ texts l
unfolding texts
texts-append [] l = refl
texts-append (b ∷ k) l = rw (texts-append k l) (sym (append_assoc (text b) (texts k) (texts l)))

behind : (f n t c m : Bytes) → f ++ (n ++ (t ++ (c ++ m))) ≡ (f ++ (n ++ (t ++ c))) ++ m
behind f n t c m =
    ap (λ (z : Bytes). f ++ z)
      (ap (λ (z : Bytes). n ++ z) (sym (append_assoc t c m)) ∙ sym (append_assoc n (t ++ c) m))
    ∙ sym (append_assoc f (n ++ (t ++ c)) m)

pub snoc_cons :
    (k : List Buffer) (c : Buffer) → (x : Buffer) × (l : List Buffer) × (k ++ (c ∷ []) ≡ x ∷ l)
snoc_cons [] c = (c, [], refl)
snoc_cons (x ∷ k) c = (x, k ++ (c ∷ []), refl)

pub next_buffer-empty : (block : Memory) (s : Logger) → Front s → (next_buffer block s.prv).len ≡ 0
unfolding next_buffer
next_buffer-empty block s (inl (_, (b, e, z))) = rw e z
next_buffer-empty block s (inr (x, l, t, e)) = rw e

-- The front end.
module _ (size : ℕ) (block : Memory) (msg : Bytes) (fits : length msg + 1 < size) where
  put_line_lem :
      (b : Buffer)
      → b.len ≡ 0
      → (c : Buffer) × (put_line size block msg b ≡ ok c) × IsValid size c × (text c ≡ msg)
  unfolding put_line avail text slice
  put_line_lem b z =
      let e = lt→ltb b.len size (omega (arith, z, fits)) in
      let f = le→leb (length msg + 1) (size - 1 - b.len) (omega (arith, z, fits)) in
      let (c, g, v, t) = append_fits size msg b (omega (arith, z, fits)) (omega (arith, z, fits)) in
      (c, rw (e, f) g, v, t ∙ ap (λ (n : ℕ). slice b.cells 0 n ++ msg) z)

  log_into-total :
      (s : Logger) (c : Buffer)
      → s.cur ≡ some c
      → IsValid size c
      → Front s
      → Idle s ⊎ Busy s
      → (d : Logger) × (log_into size block msg c s ≡ ok d)
        × IsOrderly size d
        × (total d ≡ total s ++ msg)
        × (d.file ≡ s.file)
        × (d.need ≡ s.need)
        × (d.busy ≡ s.busy)
  unfolding log_into avail total cur_text texts
  log_into-total s c here v front back =
      let b = lt→ltb c.len size v in
      let old = behind s.file (texts s.need) (texts s.trans) (text c) msg in
      elim (Bool-cases (leb (length msg + 1) (size - 1 - c.len))) [
        | inl y ↦
            let (d, e, w, t) = append_fits size msg c v (ground (arith, y, v)) in
            (
              record s { cur = some d },
              rw (b, y, e),
              record { cur = (d, refl, w); front = front; back = back },
              rw (t, here) old,
              refl,
              refl,
              refl,
            )
        | inr n ↦
            let (d, e, w, t) =
              put_line_lem (next_buffer block s.prv) (next_buffer-empty block s front) in
            let (x, l, more) = snoc_cons s.trans c in
            let moved : texts (s.trans ++ (c ∷ [])) ++ text d ≡ texts s.trans ++ (text c ++ msg) =
              ap (λ (z : Bytes). z ++ text d) (texts-append s.trans (c ∷ []))
              ∙ append_assoc (texts s.trans) (texts (c ∷ [])) (text d)
              ∙ ap (λ (z : Bytes). texts s.trans ++ (z ++ text d)) (append-nil (text c))
              ∙ ap (λ (z : Bytes). texts s.trans ++ (text c ++ z)) t in
            (
              record s { trans = s.trans ++ (c ∷ []); cur = some d; prv = none },
              rw (b, n, e),
              record { cur = (d, refl, w); front = inr (x, l, more, refl); back = back },
              rw (moved, here) old,
              refl,
              refl,
              refl,
            )
      ]

  pub log-total :
      (s : Logger)
      → IsOrderly size s
      → (d : Logger) × (log size block msg s ≡ ok d)
        × IsOrderly size d
        × (total d ≡ total s ++ msg)
        × (d.file ≡ s.file)
        × (d.need ≡ s.need)
        × (d.busy ≡ s.busy)
  unfolding log deref
  log-total s o =
      let (c, here, v) = o.cur in
      let (d, e, rest, t, same, need, busy) = log_into-total s c here v o.front o.back in
      (d, begins c here ∙ e, rest, t, same, need, busy)
    where
      begins : (c : Buffer) → s.cur ≡ some c → log size block msg s ≡ log_into size block msg c s
      begins c here = let a = lt→ltb (length msg) size (omega (arith, fits)) in rw (a, here)
