-- ===== src/Singleton/Once.antt =====
-- One object is made, and all threads get it.
use adl_server.Base.{
  ℕ, suc, ◌≤◌, true, false, Option, none, some, ◌==◌, Bool-cases, ◌⊎◌, inl, inr, ◌≡◌, ◌≢◌, refl,
  sym, ap, ◌∙◌, subst, arith,
}
use adl_server.Singleton.{
  Pc, loading, locking, checking, building, storing, leaving, returned, Shared, System, new_system,
  after_load, after_check, advance, update, thread_step, CanGo, Step, goes, Steps, stay, go,
}

-- What a thread at a position knows of the shared memory.
abbrev pub Knows : Shared → ℕ → Pc → Type 0
Knows m i loading = Unit {0}
Knows m i locking = Unit {0}
Knows m i checking = m.owner ≡ some i
Knows m i building = (m.owner ≡ some i) × (m.instance ≡ none) × (m.built ≡ 0)
Knows m i (storing p) = (m.owner ≡ some i) × (m.instance ≡ none) × (p ≡ 0) × (m.built ≡ 1)
Knows m i (leaving p) = (m.owner ≡ some i) × (m.instance ≡ some p)
Knows m i (returned p) = m.instance ≡ some p

-- Nothing is made; or one object, which a thread is about to store; or it was stored.
abbrev pub IsOne : Shared → (ℕ → Pc) → Type 0
IsOne m pc =
    ((m.instance ≡ none) × (m.built ≡ 0))
    ⊎ ((m.instance ≡ none) × (m.built ≡ 1) × ((i : ℕ) × (pc i ≡ storing 0)))
    ⊎ ((m.instance ≡ some 0) × (m.built ≡ 1))

pub record IsSound (s : System) : Type 0 where
  pub knows : (i : ℕ) → Knows s.mem i (s.pc i)
  pub one : IsOne s.mem s.pc

update-same : (pc : ℕ → Pc) (i : ℕ) (q : Pc) → update pc i q i ≡ q
unfolding update
update-same pc i q = let e : (i == i) ≡ true = ground arith in rw e refl

update-other : (pc : ℕ → Pc) (i j : ℕ) (q : Pc) → (j == i) ≡ false → update pc i q j ≡ pc j
unfolding update
update-other pc i j q e = rw e refl

elsewhere :
    (m : Shared) (i j : ℕ)
    → (j == i) ≡ false
    → (m.owner ≡ none) ⊎ (m.owner ≡ some i)
    → m.owner ≡ some j
    → ⊥
elsewhere m i j e (inl h) x = cc
elsewhere m i j e (inr h) x = let same : i ≡ j = cc in ground (arith, e, same)

-- A thread without the lock, where another one holds it or nobody does, still knows what it knew
-- when the memory changes, as long as a pointer that is there stays.
still :
    (m n : Shared) (i j : ℕ) (q : Pc)
    → (j == i) ≡ false
    → (m.owner ≡ none) ⊎ (m.owner ≡ some i)
    → ((p : ℕ) → m.instance ≡ some p → n.instance ≡ some p)
    → Knows m j q
    → Knows n j q
still m n i j loading e h k x = tt
still m n i j locking e h k x = tt
still m n i j checking e h k x = absurd (elsewhere m i j e h x)
still m n i j building e h k x = absurd (elsewhere m i j e h x.0)
still m n i j (storing p) e h k x = absurd (elsewhere m i j e h x.0)
still m n i j (leaving p) e h k x = absurd (elsewhere m i j e h x.0)
still m n i j (returned p) e h k x = k p x

-- A step of thread `i` to a memory and a position.
moved :
    (i : ℕ) (q : Pc) (n : Shared) (s : System)
    → ((j : ℕ) → (j == i) ≡ false → Knows s.mem j (s.pc j) → Knows n j (s.pc j))
    → Knows n i q
    → IsOne n (update s.pc i q)
    → IsSound s
    → IsSound (record { mem = n; pc = update s.pc i q })
moved i q n s others here one sound = record { knows = all; one = one }
  where
    all : (j : ℕ) → Knows n j (update s.pc i q j)
    all j = elim (Bool-cases (j == i)) [
      | inl y ↦
          let same : i ≡ j = ground (arith, y) in
          subst (λ k. Knows n k (update s.pc i q k)) same
            (subst (λ r. Knows n i r) (sym (update-same s.pc i q)) here)
      | inr m ↦
          subst (λ r. Knows n j r) (sym (update-other s.pc i j q m)) (others j m (sound.knows j))
    ]

-- The memory stays as it is, and the thread was not about to store.
kept-IsOne :
    (i : ℕ) (q : Pc) (s : System)
    → ((p : ℕ) → s.pc i ≢ storing p)
    → IsOne s.mem s.pc
    → IsOne s.mem (update s.pc i q)
kept-IsOne i q s h (inl x) = inl x
kept-IsOne i q s h (inr (inr x)) = inr (inr x)
kept-IsOne i q s h (inr (inl (a, b, (j, e)))) = inr (inl (a, b, (j, stays)))
  where
    stays : update s.pc i q j ≡ storing 0
    stays = elim (Bool-cases (j == i)) [
      | inl y ↦ let same : j ≡ i = ground (arith, y) in absurd (h 0 (ap s.pc (sym same) ∙ e))
      | inr m ↦ update-other s.pc i j q m ∙ e
    ]

module _ (i : ℕ) (s : System) (sound : IsSound s) where
  -- What the thread knows, at the position where it is.
  here : (p : Pc) → s.pc i ≡ p → Knows s.mem i p
  here p e = subst (λ q. Knows s.mem i q) e (sound.knows i)

  -- A step that leaves the memory as it is.
  looked :
      (q : Pc)
      → ((p : ℕ) → s.pc i ≢ storing p)
      → Knows s.mem i q
      → IsSound (record { mem = s.mem; pc = update s.pc i q })
  looked q h k = moved i q s.mem s (λ j e x. x) k (kept-IsOne i q s h sound.one) sound

  loaded :
      (o : Option ℕ)
      → s.mem.instance ≡ o
      → s.pc i ≡ loading
      → IsSound (record { mem = s.mem; pc = update s.pc i (after_load o) })
  unfolding after_load
  loaded none e h = looked locking (λ p k. cc) tt
  loaded (some p) e h = looked (returned p) (λ x k. cc) e

  checked :
      (o : Option ℕ)
      → s.mem.instance ≡ o
      → s.pc i ≡ checking
      → IsSound (record { mem = s.mem; pc = update s.pc i (after_check o) })
  unfolding after_check
  checked (some p) e h = looked (leaving p) (λ x k. cc) (here checking h, e)
  checked none e h = looked building (λ x k. cc) (owned, e, nothing sound.one)
    where
      owned : s.mem.owner ≡ some i
      owned = here checking h

      nothing : IsOne s.mem s.pc → s.mem.built ≡ 0
      nothing (inl x) = x.1
      nothing (inr (inr x)) = let a = x.0 in absurd (cc)
      nothing (inr (inl (_, _, (j, at_store)))) =
          let k = subst (λ q. Knows s.mem j q) at_store (sound.knows j) in
          let theirs = k.0 in
          let mine = owned in let same : i ≡ j = cc in let both = ap s.pc same in absurd (cc)

  -- A step of the thread that holds the lock, or takes it where it is free.
  changed :
      (q : Pc) (n : Shared)
      → (s.mem.owner ≡ none) ⊎ (s.mem.owner ≡ some i)
      → ((p : ℕ) → s.mem.instance ≡ some p → n.instance ≡ some p)
      → Knows n i q
      → IsOne n (update s.pc i q)
      → IsSound (record { mem = n; pc = update s.pc i q })
  changed q n lock grows k one =
      moved i q n s (λ j e x. still s.mem n i j (s.pc j) e lock grows x) k one sound

  step-IsSound :
      (p : Pc)
      → s.pc i ≡ p
      → CanGo p s.mem.owner
      → IsSound (let (m, q) = advance i p s.mem in record { mem = m; pc = update s.pc i q })
  unfolding advance
  step-IsSound loading h free = loaded s.mem.instance refl h
  step-IsSound locking h free =
      changed checking (record s.mem { owner = some i }) (inl free) (λ p e. e) refl
        (kept-IsOne i checking s (λ p k. cc) sound.one)
  step-IsSound checking h free = checked s.mem.instance refl h
  step-IsSound building h free =
      let (mine, unset, zero_built) = here building h in
      changed (storing s.mem.built) (record s.mem { built = suc s.mem.built }) (inr mine) (λ p e. e)
        (mine, unset, zero_built, ap suc zero_built)
        (inr (
          inl (
            unset,
            ap suc zero_built,
            (i, update-same s.pc i (storing s.mem.built) ∙ ap storing zero_built),
          )))
  step-IsSound (storing p) h free =
      let (mine, unset, first, one) = here (storing p) h in
      changed (leaving p) (record s.mem { instance = some p }) (inr mine) (λ x e. absurd (cc))
        (mine, refl) (inr (inr (ap (λ (x : ℕ). some x) first, one)))
  step-IsSound (leaving p) h free =
      let (mine, set) = here (leaving p) h in
      changed (returned p) (record s.mem { owner = none }) (inr mine) (λ x e. e) set
        (kept-IsOne i (returned p) s (λ x k. cc) sound.one)
  step-IsSound (returned p) h free = looked (returned p) (λ x k. cc) (here (returned p) h)

new_system-IsSound : IsSound new_system
new_system-IsSound = record { knows = λ i. tt; one = inl (refl, refl) }

Step-IsSound : (s t : System) → Step s t → IsSound s → IsSound t
unfolding thread_step
Step-IsSound s _ (goes i _ free) sound = step-IsSound i s sound (s.pc i) refl free

Steps-IsSound : (s : System) → Steps new_system s → IsSound s
Steps-IsSound _ (stay _) = new_system-IsSound
Steps-IsSound _ (go _ s t steps step) = Step-IsSound s t step (Steps-IsSound s steps)

-- However the calls of any number of threads are interleaved: at most one object is ever made, and
-- every call that has returned has returned it, which is the object that `m_instance` points to.
pub one_instance :
    (s : System)
    → Steps new_system s
    → (s.mem.built ≤ 1)
      × ((i p : ℕ) → s.pc i ≡ returned p → (p ≡ 0) × (s.mem.built ≡ 1) × (s.mem.instance ≡ some p))
one_instance s steps = (few sound.one, λ i p e. given p (here i s sound (returned p) e) sound.one)
  where
    sound : IsSound s
    sound = Steps-IsSound s steps

    few : IsOne s.mem s.pc → s.mem.built ≤ 1
    few (inl x) = omega (arith, x.1)
    few (inr (inl x)) = omega (arith, x.1)
    few (inr (inr x)) = omega (arith, x.1)

    given :
        (p : ℕ)
        → s.mem.instance ≡ some p
        → IsOne s.mem s.pc
        → (p ≡ 0) × (s.mem.built ≡ 1) × (s.mem.instance ≡ some p)
    given p e (inl x) = let a = x.0 in absurd (cc)
    given p e (inr (inl x)) = let a = x.0 in absurd (cc)
    given p e (inr (inr x)) = let a = x.0 in (cc, x.1, e)
