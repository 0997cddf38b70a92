-- ===== src/TcpServer/SubLoop/Members.antt =====
-- Membership in the set of a loop's connections.
use adl_server.Base.{
  ℕ, ◌==◌, Bool, true, false, ◌||◌, List, [], ◌∷◌, Bool-cases, inl, inr, ◌≡◌, ◌≢◌, refl, ap, arith,
}
use adl_server.TcpServer.SubLoop.{is_member, insert, erase, set_at}

pub other : (c d : ℕ) → c ≢ d → (c == d) ≡ false
other c d h = ground (arith, h)

pub itself : (c : ℕ) → (c == c) ≡ true
itself c = ground arith

pub is_member-insert : (c : ℕ) (ds : List ℕ) → is_member c (insert c ds) ≡ true
unfolding is_member insert
is_member-insert c ds = elim (Bool-cases (is_member c ds)) [
  | inl y ↦ rw y y
  | inr m ↦ rw (m, itself c) refl
]

pub is_member-insert_other :
    (c d : ℕ) (ds : List ℕ) → d ≢ c → is_member d (insert c ds) ≡ is_member d ds
unfolding is_member insert
is_member-insert_other c d ds h = elim (Bool-cases (is_member c ds)) [
  | inl y ↦ rw y refl
  | inr m ↦ rw (m, other d c h) refl
]

pub is_member-erase : (c : ℕ) (ds : List ℕ) → is_member c (erase c ds) ≡ false
unfolding is_member erase
is_member-erase c [] = refl
is_member-erase c (d ∷ ds) = elim (Bool-cases (c == d)) [
  | inl y ↦ rw y (is_member-erase c ds)
  | inr m ↦ rw (m, m) (is_member-erase c ds)
]

pub is_member-erase_other :
    (c d : ℕ) (ds : List ℕ) → d ≢ c → is_member d (erase c ds) ≡ is_member d ds
unfolding is_member erase
is_member-erase_other c d [] h = refl
is_member-erase_other c d (e ∷ ds) h = elim (Bool-cases (c == e)) [
  | inl y ↦
      let same : c ≡ e = ground (arith, y) in
      let apart : (d == e) ≡ false = ground (arith, h, same) in
      rw (y, apart) (is_member-erase_other c d ds h)
  | inr m ↦ rw m (ap (λ (b : Bool). (d == e) || b) (is_member-erase_other c d ds h))
]

pub set_at_same {ℓ} : {A : Type ℓ} (c : ℕ) (v : A) (f : ℕ → A) → set_at c v f c ≡ v
unfolding set_at
set_at_same c v f = rw (itself c) refl

pub set_at_other {ℓ} : {A : Type ℓ} (c d : ℕ) (v : A) (f : ℕ → A) → d ≢ c → set_at c v f d ≡ f d
unfolding set_at
set_at_other c d v f h = rw (other d c h) refl
