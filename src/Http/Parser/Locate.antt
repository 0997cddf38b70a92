-- ===== src/Http/Parser/Locate.antt =====
-- Where the scans of the parser stop, when it is known which bytes lie in memory.
use adl_server.Base.{
  ℕ, zero, suc, ◌+◌, ◌≤◌, ◌<◌, ◌≡◌, refl, subst, true, false, [], ◌∷◌, ◌++◌, Bytes, length, Memory,
  slice, bytes_eq_iff, ◌==◌, arith,
}
use adl_server.Http.Request.{starts_with}
use adl_server.Http.Parser.{found, scan_line, skip_past, find_byte, matches_at}

-- The bytes `bs` lie at `i`.
abbrev pub At : Memory → ℕ → Bytes → Type 0
At m i [] = Unit
At m i (b ∷ bs) = (m i ≡ b) × At m (i + 1) bs

-- `c` does not occur.
abbrev pub Free : ℕ → Bytes → Type 0
Free c [] = Unit
Free c (x ∷ xs) = ((x == c) ≡ false) × Free c xs

pub Free-append : (c : ℕ) (xs ys : Bytes) → Free c xs → Free c ys → Free c (xs ++ ys)
Free-append c [] ys f g = g
Free-append c (x ∷ xs) ys f g = (f.0, Free-append c xs ys f.1 g)

At-moved : (m : Memory) (i j : ℕ) (bs : Bytes) → i ≡ j → At m i bs → At m j bs
At-moved m i j bs e h = subst (λ k. At m k bs) e h

pub At-append :
    (m : Memory) (i : ℕ) (xs ys : Bytes) → At m i (xs ++ ys) → At m i xs × At m (i + length xs) ys
At-append m i [] ys h = (tt, At-moved m i (i + 0) ys (omega arith) h)
At-append m i (x ∷ xs) ys h =
    let (a, b) = At-append m (i + 1) xs ys h.1 in
    ((h.0, a), At-moved m (i + 1 + length xs) (i + suc (length xs)) ys (omega arith) b)

pub slice-At : (m : Memory) (i : ℕ) (bs : Bytes) → At m i bs → slice m i (length bs) ≡ bs
unfolding slice
slice-At m i [] h = refl
slice-At m i (b ∷ bs) h = cc (h.0, slice-At m (i + 1) bs h.1)

-- With the length given by an equation.
pub slice-At-length :
    (m : Memory) (i n : ℕ) (bs : Bytes) → n ≡ length bs → At m i bs → slice m i n ≡ bs
slice-At-length m i n bs e h = rw e (slice-At m i bs h)

pub starts_with-At : (m : Memory) (i : ℕ) (s : Bytes) → At m i s → starts_with m i s ≡ true
unfolding starts_with
starts_with-At m i [] h = refl
starts_with-At m i (c ∷ s) h = ground (arith, h, starts_with-At m (i + 1) s h.1)

pub matches_at_lem : (m : Memory) (i : ℕ) (s : Bytes) → At m i s → matches_at m i s ≡ true
matches_at_lem m i s h = (bytes_eq_iff _ s).1 (slice-At m i s h)

pub skip_past-At :
    (m : Memory) (c left cur : ℕ) (xs ys : Bytes)
    → At m cur (xs ++ c ∷ ys)
    → Free c xs
    → length xs < left
    → skip_past m c left cur ≡ cur + length xs + 1
unfolding skip_past
skip_past-At m c zero cur xs ys h f l = absurd (omega arith)
skip_past-At m c (suc left) cur [] ys h f l = ground (arith, h)
skip_past-At m c (suc left) cur (x ∷ xs) ys h f l =
    ground (arith, h.0, f.0, skip_past-At m c left (cur + 1) xs ys h.1 f.1 (omega arith))

pub find_byte-At :
    (m : Memory) (c left cur : ℕ) (xs ys : Bytes)
    → At m cur (xs ++ c ∷ ys)
    → Free c xs
    → length xs < left
    → find_byte m c left cur ≡ cur + length xs
unfolding find_byte
find_byte-At m c zero cur xs ys h f l = absurd (omega arith)
find_byte-At m c (suc left) cur [] ys h f l = ground (arith, h)
find_byte-At m c (suc left) cur (x ∷ xs) ys h f l =
    ground (arith, h.0, f.0, find_byte-At m c left (cur + 1) xs ys h.1 f.1 (omega arith))

pub find_byte-Free :
    (m : Memory) (c left cur : ℕ) (xs : Bytes)
    → At m cur xs
    → Free c xs
    → length xs ≡ left
    → find_byte m c left cur ≡ cur + left
unfolding find_byte
find_byte-Free m c zero cur xs h f l = omega arith
find_byte-Free m c (suc left) cur [] h f l = absurd (omega arith)
find_byte-Free m c (suc left) cur (x ∷ xs) h f l =
    ground (arith, h.0, f.0, find_byte-Free m c left (cur + 1) xs h.1 f.1 (omega arith))

pub scan_line-At :
    (m : Memory) (left cur : ℕ) (xs ys : Bytes)
    → At m cur (xs ++ b'\r' ∷ b'\n' ∷ ys)
    → Free b'\r' xs
    → length xs + 2 ≤ left
    → scan_line m left cur ≡ found (cur + length xs + 2)
unfolding scan_line
scan_line-At m zero cur xs ys h f l = absurd (omega arith)
scan_line-At m (suc zero) cur xs ys h f l = absurd (omega arith)
scan_line-At m (suc (suc left)) cur [] ys h f l = ground (arith, h)
scan_line-At m (suc (suc left)) cur (x ∷ xs) ys h f l =
    ground (arith, h.0, f.0, scan_line-At m (suc left) (cur + 1) xs ys h.1 f.1 (omega arith))

pub skip_past-Free :
    (m : Memory) (c left cur : ℕ) (xs : Bytes)
    → At m cur xs
    → Free c xs
    → length xs ≡ left
    → skip_past m c left cur ≡ cur + left
unfolding skip_past
skip_past-Free m c zero cur xs h f l = omega arith
skip_past-Free m c (suc left) cur [] h f l = absurd (omega arith)
skip_past-Free m c (suc left) cur (x ∷ xs) h f l =
    ground (arith, h.0, f.0, skip_past-Free m c left (cur + 1) xs h.1 f.1 (omega arith))
