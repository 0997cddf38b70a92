-- ===== src/Log/FileApp.antt =====
-- src/log/fileUtil.cpp: `fileApp`, a file that is appended to. How much of a text the k-th call of
-- `fwrite_unlocked` on a file takes is a parameter, and so is whether a file can be opened.
use adl_server.Base.{
  ℕ, zero, suc, ◌+◌, ◌≤◌, ◌<◌, Bool, [], ◌∷◌, ◌++◌, append-nil, append_assoc, Bytes, length,
  length-append, length-take, length-drop, take, drop, take-append-drop, ◌==◌, Bool-cases, inl, inr,
  if◌then◌else◌, ◌⊎◌, Option, none, some, Result, ok, fault, endless, aborted, ◌≡◌, refl, sym, ap,
  ◌∙◌, arith,
}

-- `held` is what the file held when it was opened: its mode "ae" keeps that, and writes behind it.
-- `content` is what was handed to the stream since then, `flushed` how much of it was flushed.
pub record FileApp : Type 0 where
  pub name : Bytes
  pub held : Bytes
  pub content : Bytes
  pub written_bytes : ℕ
  pub flushed : ℕ
  pub calls : ℕ

abbrev pub opened_file : Bytes → Bytes → FileApp
opened_file held name = record {
  name = name;
  held = held;
  content = [];
  written_bytes = 0;
  flushed = 0;
  calls = 0;
}

unfoldable pub new_file_app : (Bytes → Bool) → (Bytes → Bytes) → Bytes → Result FileApp
new_file_app can_open held name =
    if can_open name then ok (opened_file (held name) name) else fault aborted

unfoldable pub flush : FileApp → FileApp
flush f = record f { flushed = length f.content }

module _ (fwrite : Bytes → ℕ → Bytes → ℕ) where
  -- `write`, with the effect on the stream.
  unfoldable pub write : Bytes → FileApp → ℕ × FileApp
  write bytes f =
      let n = fwrite f.name f.calls bytes in
      (n, record f { content = f.content ++ take n bytes; calls = suc f.calls })

  -- The loop of `append`: `none` is the result -1. A size is never below 0.
  unfoldable pub append_loop : ℕ → Bytes → ℕ → FileApp → Result (Option ℕ × FileApp)
  append_loop zero p total f = fault endless
  append_loop (suc fuel) [] total f = ok (some total, f)
  append_loop (suc fuel) (b ∷ bs) total f =
      let (n, g) = write (b ∷ bs) f in
      let rest =
        append_loop fuel (drop n (b ∷ bs)) (total + n)
          (record g { written_bytes = g.written_bytes + n }) in
      if n == 0 then ok (none, g) else rest

  unfoldable pub file_append : Bytes → FileApp → Result (Option ℕ × FileApp)
  file_append line f = append_loop (suc (length line)) line 0 f

  -- What the manual says of `fwrite`: it takes at most what it is given.
  abbrev pub IsBounded : Type 0
  IsBounded = (name : Bytes) (k : ℕ) (bytes : Bytes) → fwrite name k bytes ≤ length bytes

  -- A stream without errors takes something of every text.
  abbrev pub IsWorking : Type 0
  IsWorking = (name : Bytes) (k : ℕ) (b : ℕ) (bs : Bytes) → 0 < fwrite name k (b ∷ bs)

  -- The call number k takes nothing of a text.
  abbrev pub Refuses : Bytes → Type 0
  Refuses name = (k : ℕ) × (b : ℕ) × (bs : Bytes) × (fwrite name k (b ∷ bs) ≡ 0)

  -- The file after an append: a start of the text is added and counted, all of it unless a write was
  -- refused.
  abbrev pub Appends : Bytes → ℕ → FileApp → Option ℕ × FileApp → Type 0
  Appends p total f (r, g) =
      (front : Bytes) × (back : Bytes) × (p ≡ front ++ back)
      × (g.content ≡ f.content ++ front)
      × (g.written_bytes ≡ f.written_bytes + length front)
      × (g.name ≡ f.name)
      × (g.held ≡ f.held)
      × (((r ≡ none) × Refuses f.name) ⊎ ((back ≡ []) × (r ≡ some (total + length p))))

  module _ (bounded : IsBounded) where
    append_loop-Appends :
        (fuel : ℕ) (p : Bytes) (total : ℕ) (f : FileApp)
        → length p < fuel
        → (r : Option ℕ × FileApp) × (append_loop fuel p total f ≡ ok r) × Appends p total f r
    unfolding append_loop write
    append_loop-Appends zero p total f h = absurd (omega (arith, h))
    append_loop-Appends (suc fuel) [] total f h = (
      _,
      refl,
      (
        [],
        [],
        refl,
        sym (append-nil f.content),
        omega arith,
        refl,
        refl,
        inr (refl, ap (λ (n : ℕ). some n) (omega arith)),
      ),
    )
    append_loop-Appends (suc fuel) (b ∷ bs) total f h =
        elim (Bool-cases (fwrite f.name f.calls (b ∷ bs) == 0)) [
          | inl y ↦
              let e : fwrite f.name f.calls (b ∷ bs) ≡ 0 = ground (arith, y) in
              rw y (
                _,
                refl,
                (
                  [],
                  b ∷ bs,
                  refl,
                  rw e refl,
                  omega arith,
                  refl,
                  refl,
                  inl (refl, (f.calls, b, bs, e)),
                ),
              )
          | inr m ↦
              let p : Bytes = b ∷ bs in
              let n = fwrite f.name f.calls p in
              let positive : 0 < n = ground (arith, m) in
              let most : n ≤ length p = bounded f.name f.calls p in
              let taken : length (take n p) ≡ n = length-take n p ∙ omega (arith, most) in
              let (_, g) = write p f in
              let next : FileApp = record g { written_bytes = g.written_bytes + n } in
              let shorter : length (drop n p) < fuel =
                omega (arith, h, positive, length-drop n p) in
              let (r, e, (front, back, split, c, w, name, held, end)) =
                append_loop-Appends fuel (drop n p) (total + n) next shorter in
              (
                r,
                rw m e,
                (
                  take n p ++ front,
                  back,
                  sym (take-append-drop n p)
                      ∙ ap (λ (z : Bytes). take n p ++ z) split
                      ∙ sym (append_assoc (take n p) front back),
                  c ∙ append_assoc f.content (take n p) front,
                  w ∙ omega (arith, taken, length-append (take n p) front),
                  name,
                  held,
                  elim end [
                    | inl x ↦ inl x
                    | inr (x, y) ↦
                        inr (x, y ∙ ap (λ (k : ℕ). some k) (omega (arith, most, length-drop n p)))
                  ],
                ),
              )
        ]

    pub file_append-Appends :
        (p : Bytes) (f : FileApp)
        → (r : Option ℕ × FileApp) × (file_append p f ≡ ok r) × Appends p 0 f r
    unfolding file_append
    file_append-Appends p f = append_loop-Appends (suc (length p)) p 0 f (omega arith)
