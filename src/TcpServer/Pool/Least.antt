-- ===== src/TcpServer/Pool/Least.antt =====
-- The place that `std::min_element` gives.
use adl_server.Base.{
  at, ℕ, zero, suc, ◌+◌, ◌<◌, ◌≤◌, ltb, Bool-cases, List, [], ◌∷◌, some, ◌⊎◌, inl, inr, ◌≡◌, refl,
  ◌∙◌, arith,
}
use adl_server.TcpServer.Pool.{min_from, min_element}

same_some : {x y : ℕ} → some x ≡ some y → x ≡ y
same_some h = cc

-- Every element is at least, or every one before a place is above, a number.
abbrev pub IsBelowAll : ℕ → List ℕ → Type 0
IsBelowAll x xs = (k y : ℕ) → at xs k ≡ some y → x ≤ y

abbrev pub IsBelowEarlier : ℕ → ℕ → List ℕ → Type 0
IsBelowEarlier x i xs = (k y : ℕ) → k < i → at xs k ≡ some y → x < y

-- The first place of the least element.
abbrev pub IsFirstLeast : ℕ → List ℕ → Type 0
IsFirstLeast i xs = (x : ℕ) × (at xs i ≡ some x) × IsBelowAll x xs × IsBelowEarlier x i xs

below_cons : (z x : ℕ) (xs : List ℕ) → z ≤ x → IsBelowAll z xs → IsBelowAll z (x ∷ xs)
unfolding at
below_cons z x xs h all zero y e = let w = same_some e in omega (arith, h, w)
below_cons z x xs h all (suc k) y e = all k y e

earlier_cons :
    (z x i : ℕ) (xs : List ℕ) → z < x → IsBelowEarlier z i xs → IsBelowEarlier z (suc i) (x ∷ xs)
unfolding at
earlier_cons z x i xs h all zero y k e = let w = same_some e in omega (arith, h, w)
earlier_cons z x i xs h all (suc k) y l e = all k y (omega (arith, l)) e

-- The least so far stays, or a smaller one of the rest is found.
abbrev Found : ℕ → ℕ → ℕ → List ℕ → Type 0
Found least place here xs =
    ((min_from least place here xs ≡ place) × IsBelowAll least xs)
    ⊎ ((j : ℕ) × (min_from least place here xs ≡ j + here)
        × (x : ℕ) × (x < least)
        × (at xs j ≡ some x)
        × IsBelowAll x xs
        × IsBelowEarlier x j xs)

min_from-Found : (xs : List ℕ) (least place here : ℕ) → Found least place here xs
unfolding min_from at
min_from-Found [] least place here = inl (refl, λ k y e. absurd (cc))
min_from-Found (x ∷ xs) least place here = elim (Bool-cases (ltb x least)) [
  | inl y ↦
      let h : x < least = ground (arith, y) in
      rw y (elim (min_from-Found xs x here (suc here)) [
        | inl (e, all) ↦ inr (
          0,
          e ∙ omega arith,
          x,
          h,
          refl,
          below_cons x x xs (omega arith) all,
          λ k z l f. absurd (omega (arith, l)),
        )
        | inr (j, e, z, l, f, all, before) ↦ inr (
          suc j,
          e ∙ omega arith,
          z,
          omega (arith, l, h),
          f,
          below_cons z x xs (omega (arith, l)) all,
          earlier_cons z x j xs l before,
        )
      ])
  | inr m ↦
      let h : least ≤ x = ground (arith, m) in
      rw m (elim (min_from-Found xs least place (suc here)) [
        | inl (e, all) ↦ inl (e, below_cons least x xs h all)
        | inr (j, e, z, l, f, all, before) ↦ inr (
          suc j,
          e ∙ omega arith,
          z,
          l,
          f,
          below_cons z x xs (omega (arith, l, h)) all,
          earlier_cons z x j xs (omega (arith, l, h)) before,
        )
      ])
]

pub min_element-IsFirstLeast : (x : ℕ) (xs : List ℕ) → IsFirstLeast (min_element (x ∷ xs)) (x ∷ xs)
unfolding min_element at
min_element-IsFirstLeast x xs = elim (min_from-Found xs x 0 1) [
  | inl (e, all) ↦
      rw e (x, refl, below_cons x x xs (omega arith) all, λ k z l f. absurd (omega (arith, l)))
  | inr (j, e, z, l, f, all, before) ↦
      let at_place : min_from x 0 1 xs ≡ suc j = e ∙ omega arith in
      rw at_place (z, f, below_cons z x xs (omega (arith, l)) all, earlier_cons z x j xs l before)
]
