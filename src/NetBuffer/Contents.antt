-- ===== src/NetBuffer/Contents.antt =====
-- What each operation does to the readable bytes.
use adl_server.Base.{
  ℕ, ◌+◌, ◌-◌, ◌*◌, ◌≤◌, ◌<◌, ◌≡◌, refl, ap, sym, ◌∙◌, inl, inr, Bytes, [], ◌∷◌, ◌++◌, append-nil,
  append_assoc, length, take, drop, slice, store, slice_eq, slice-append, drop-slice, take-slice,
  arith, leb, ltb, Bool-cases, lt→ltb, le→leb, ok, fault, assert_failed, true, lt→leb_false,
  length-slice, take_all, length-drop,
}
use adl_server.NetBuffer.Invariant.{
  IsValid, HasRoom, compact-IsValid, compact-readable, contents-compact, expansion_total,
}
use adl_server.NetBuffer.{
  NetBuffer, int_limit, readable, writeable, compact, check_capacity, copy_in, append, retrieve,
  retrieve_as_string, retrieve_all_as_string, retrieve_all, peek_int, read_int, contents,
}

HasRoom-compact : (b c : NetBuffer) (len : ℕ) → HasRoom (compact b) c len → HasRoom b c len
HasRoom-compact b c len h = record {
  valid = h.valid;
  same = h.same ∙ contents-compact b;
  room = h.room;
}

-- If the readable bytes and `len` more fit below 2^30, then `checkCapcity(len)` returns, the buffer is
-- valid, holds the same bytes and has more than `len` bytes of room.
pub check_capacity_total :
    (b : NetBuffer) (len : ℕ)
    → IsValid b
    → 2 * (readable b + len) < int_limit
    → (c : NetBuffer) × (check_capacity b len ≡ ok c) × HasRoom b c len
unfolding check_capacity
check_capacity_total b len v h = elim (Bool-cases (leb (writeable b) len)) [
  | inr roomy ↦ (b, rw roomy, record { valid = v; same = refl; room = ground arith })
  | inl tight ↦ elim (Bool-cases (leb (writeable (compact b)) len)) [
    | inr moved ↦ (
      compact b,
      rw (tight, moved),
      HasRoom-compact b (compact b) len
          (record { valid = compact-IsValid b v; same = refl; room = ground arith }),
    )
    | inl still ↦
        let fits : 2 * ((compact b).w + len) < int_limit = rw (compact-readable b) h in
        let (c, e, room) = expansion_total (compact b) len (compact-IsValid b v) fits in
        (c, rw (tight, still) e, HasRoom-compact b c len room)
  ]
]

abbrev stored : NetBuffer → ℕ → NetBuffer
stored b x = record b { cells = store b.cells b.w x; w = b.w + 1 }

contents-stored : (b : NetBuffer) (x : ℕ) → b.r ≤ b.w → contents (stored b x) ≡ contents b ++ x ∷ []
unfolding contents slice
contents-stored b x h =
    let e : b.w + 1 - b.r ≡ readable b + 1 = omega arith in
    rw (e, slice-append (store b.cells b.w x) b.r (readable b) 1) (both kept last)
  where
    both : {xs ys us vs : Bytes} → xs ≡ ys → us ≡ vs → xs ++ us ≡ ys ++ vs
    both p q = cc

    kept : slice (store b.cells b.w x) b.r (readable b) ≡ slice b.cells b.r (readable b)
    kept =
        slice_eq (store b.cells b.w x) b.cells b.r b.r (readable b)
          λ k lt. unfold store in (ground arith)

    last : slice (store b.cells b.w x) (b.r + readable b) 1 ≡ x ∷ []
    last = unfold slice store in (ground arith)

-- `bytes` were written behind the readable ones.
pub record Appended (b c : NetBuffer) (bytes : Bytes) : Type 0 where
  pub valid : IsValid c
  pub extended : contents c ≡ contents b ++ bytes
  pub alloc_same : c.alloc ≡ b.alloc

pub copy_in_total :
    (b : NetBuffer) (bytes : Bytes)
    → IsValid b
    → length bytes ≤ writeable b
    → (c : NetBuffer) × (copy_in b bytes ≡ ok c) × Appended b c bytes
unfolding copy_in
copy_in_total b [] v h =
    (b, refl, record { valid = v; extended = sym (append-nil (contents b)); alloc_same = refl })
copy_in_total b (x ∷ xs) v h =
    let space : ltb b.w b.alloc ≡ true = lt→ltb b.w b.alloc (omega arith) in
    let valid : IsValid (stored b x) = omega (arith, v) in
    let enough : length xs ≤ writeable (stored b x) = omega arith in
    let (c, e, a) = copy_in_total (stored b x) xs valid enough in
    (
      c,
      rw space e,
      record {
        valid = a.valid;
        extended =
            a.extended
            ∙ ap (λ (t : Bytes). t ++ xs) (contents-stored b x v.ordered)
            ∙ append_assoc (contents b) (x ∷ []) xs;
        alloc_same = a.alloc_same;
      },
    )

-- While the readable bytes and the new ones stay below 2^30, `append` succeeds: it keeps the buffer
-- valid and puts exactly the new bytes behind the readable ones, moved or reallocated as need be.
pub append_total :
    (b : NetBuffer) (bytes : Bytes)
    → IsValid b
    → 2 * (readable b + length bytes) < int_limit
    → (c : NetBuffer) × (append b bytes ≡ ok c) × IsValid c × (contents c ≡ contents b ++ bytes)
unfolding append
append_total b bytes v h =
    let (c, e, room) = check_capacity_total b (length bytes) v h in
    let (d, f, done) = copy_in_total c bytes room.valid (omega (arith, room.room)) in
    (d, rw (e) f, done.valid, done.extended ∙ ap (λ (t : Bytes). t ++ bytes) room.same)

pub length-contents : (b : NetBuffer) → length (contents b) ≡ readable b
unfolding contents
length-contents b = length-slice b.cells b.r (readable b)

-- `retrieve(len)` drops the first `len` readable bytes and keeps the buffer valid; where fewer are
-- readable its assertion fails.
pub retrieve_lem :
    (b : NetBuffer) (len : ℕ)
    → IsValid b
    → (len ≤ readable b
        → (c : NetBuffer) × (retrieve b len ≡ ok c)
          × IsValid c
          × (contents c ≡ drop len (contents b)))
      × (readable b < len → retrieve b len ≡ fault assert_failed)
unfolding retrieve contents
retrieve_lem b len v = (
  λ h. (record b { r = b.r + len }, rw (le→leb len (readable b) h), omega (arith, v), rest),
  λ h. rw (lt→leb_false len (readable b) h),
)
  where
    rest : slice b.cells (b.r + len) (b.w - (b.r + len)) ≡ drop len (slice b.cells b.r (readable b))
    rest =
        let e : b.w - (b.r + len) ≡ readable b - len = omega arith in
        rw e (sym (drop-slice b.cells b.r (readable b) len))

-- `retrieveAsString(len)` returns the first `len` readable bytes and leaves the others; where fewer
-- are readable its assertion fails.
pub retrieve_as_string_lem :
    (b : NetBuffer) (len : ℕ)
    → IsValid b
    → (len ≤ readable b
        → (c : NetBuffer) × (retrieve_as_string b len ≡ ok (take len (contents b), c))
          × IsValid c
          × (contents c ≡ drop len (contents b)))
      × (readable b < len → retrieve_as_string b len ≡ fault assert_failed)
unfolding retrieve_as_string
retrieve_as_string_lem b len v = (λ h. enough h, λ h. rw (lt→leb_false len (readable b) h))
  where
    first : len ≤ readable b → take len (contents b) ≡ slice b.cells b.r len
    first h = unfold contents in (take-slice b.cells b.r (readable b) len h)

    enough :
        len ≤ readable b
        → (c : NetBuffer) × (retrieve_as_string b len ≡ ok (take len (contents b), c))
          × IsValid c
          × (contents c ≡ drop len (contents b))
    enough h =
        let (c, e, valid, rest) = (retrieve_lem b len v).0 h in
        (c, rw (le→leb len (readable b) h, e, first h), valid, rest)

-- `readInt` is `retrieveAsString(4)`, up to the type of its result.
pub read_int_lem : (b : NetBuffer) → read_int b ≡ retrieve_as_string b 4
unfolding read_int peek_int retrieve_as_string
read_int_lem b = elim (Bool-cases (leb 4 (readable b))) [ inl y ↦ rw y refl | inr m ↦ rw m refl ]

none_left : (bs : Bytes) → length bs ≡ 0 → bs ≡ []
none_left [] h = refl
none_left (b ∷ bs) h = absurd (omega (arith, h))

pub retrieve_all_as_string_lem :
    (b : NetBuffer)
    → IsValid b
    → (c : NetBuffer) × (retrieve_all_as_string b ≡ ok (contents b, c))
      × IsValid c
      × (contents c ≡ [])
unfolding retrieve_all_as_string
retrieve_all_as_string_lem b v =
    let size = length-contents b in
    let (c, e, valid, rest) = (retrieve_as_string_lem b (readable b) v).0 (omega arith) in
    (
      c,
      e ∙ ap (λ (z : Bytes). ok (z, c)) (take_all (readable b) (contents b) (omega (arith, size))),
      valid,
      rest
          ∙ none_left (drop (readable b) (contents b))
              (omega (arith, size, length-drop (readable b) (contents b))),
    )

-- `retrieveAll()` and `reset()` leave a valid, empty buffer.
pub retrieve_all_lem :
    (b : NetBuffer) → IsValid b → IsValid (retrieve_all b) × (contents (retrieve_all b) ≡ [])
unfolding retrieve_all contents slice
retrieve_all_lem b v = (omega (arith, v), refl)
