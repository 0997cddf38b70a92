-- ===== src/BlockingQueue/Fifo.antt =====
-- The bounded queue as its producers and consumers see it.
use adl_server.Base.{
  ◌≤◌, ◌<◌, List, [], ◌∷◌, ◌++◌, append-nil, append_assoc, length, length-append, leb, Bool-cases,
  inl, inr, if◌then◌else◌, Option, none, some, ◌≡◌, refl, sym, ap, ◌∙◌, arith,
}
use adl_server.BlockingQueue.{Bounded, is_full, put, take_by, take}

pub data Action {ℓ} (A : Type ℓ) : Type ℓ where
  puts : A → Action A
  takes : Action A

module _ {ℓ} {A : Type ℓ} where
  -- What was taken so far is kept beside the queue. A thread that has to wait leaves both as they
  -- are and tries again later.
  unfoldable pub after_put : Option (Bounded A) → List A × Bounded A → List A × Bounded A
  after_put none s = s
  after_put (some q) s = (s.0, q)

  unfoldable pub after_take : Option (A × Bounded A) → List A × Bounded A → List A × Bounded A
  after_take none s = s
  after_take (some (x, q)) s = (s.0 ++ (x ∷ []), q)

  unfoldable pub act : Action A → List A × Bounded A → List A × Bounded A
  act (puts x) s = after_put (put x s.1) s
  act takes s = after_take (take s.1) s

  unfoldable pub act_all : List (Action A) → List A × Bounded A → List A × Bounded A
  act_all [] s = s
  act_all (a ∷ rest) s = act_all rest (act a s)

  -- The elements whose `put` does not wait.
  unfoldable pub accepted : List (Action A) → List A × Bounded A → List A
  accepted [] s = []
  accepted (puts x ∷ rest) s =
      (if is_full s.1 then [] else x ∷ []) ++ accepted rest (act (puts x) s)
  accepted (takes ∷ rest) s = accepted rest (act takes s)

  pub record IsFifo (s t : List A × Bounded A) (extra : List A) : Type ℓ where
    pub order : t.0 ++ t.1.items ≡ (s.0 ++ s.1.items) ++ extra
    pub bound : length t.1.items ≤ t.1.capacity
    pub same_capacity : t.1.capacity ≡ s.1.capacity

  put-IsFifo :
      (x : A) (s : List A × Bounded A)
      → length s.1.items ≤ s.1.capacity
      → IsFifo s (act (puts x) s) (if is_full s.1 then [] else x ∷ [])
  unfolding act put after_put is_full
  put-IsFifo x (t, q) h = elim (Bool-cases (leb q.capacity (length q.items))) [
    | inl y ↦ rw y (record { order = sym (append-nil _); bound = h; same_capacity = refl })
    | inr n ↦ rw n (record {
      order = sym (append_assoc t q.items (x ∷ []));
      bound =
          let sum = length-append q.items (x ∷ []) in
          let small : length q.items < q.capacity = ground (arith, n) in omega (arith, sum, small);
      same_capacity = refl;
    })
  ]

  take_by-IsFifo :
      (l : List A) (t : List A) (q : Bounded A)
      → q.items ≡ l
      → length q.items ≤ q.capacity
      → IsFifo (t, q) (after_take (take_by l q) (t, q)) []
  unfolding after_take take_by
  take_by-IsFifo [] t q e h = record { order = sym (append-nil _); bound = h; same_capacity = refl }
  take_by-IsFifo (x ∷ xs) t q e h = record {
    order = append_assoc t (x ∷ []) xs ∙ ap (λ (z : List A). t ++ z) (sym e) ∙ sym (append-nil _);
    bound = omega (arith, h, ap (λ (z : List A). length z) e);
    same_capacity = refl;
  }

  take-IsFifo :
      (s : List A × Bounded A) → length s.1.items ≤ s.1.capacity → IsFifo s (act takes s) []
  unfolding act take
  take-IsFifo (t, q) h = take_by-IsFifo q.items t q refl h

  IsFifo-chain :
      (s t u : List A × Bounded A) (x y : List A)
      → IsFifo s t x
      → IsFifo t u y
      → IsFifo s u (x ++ y)
  IsFifo-chain s t u x y a b = record {
    order = b.order ∙ ap (λ (z : List A). z ++ y) a.order ∙ append_assoc (s.0 ++ s.1.items) x y;
    bound = b.bound;
    same_capacity = b.same_capacity ∙ a.same_capacity;
  }

  -- However the calls of any number of producers and consumers are ordered, from a queue within its
  -- capacity: it stays within its capacity, and what was taken followed by what it holds is what that
  -- was before followed by the elements whose `put` found room, in order.
  pub act_all-IsFifo :
      (actions : List (Action A)) (s : List A × Bounded A)
      → length s.1.items ≤ s.1.capacity
      → IsFifo s (act_all actions s) (accepted actions s)
  unfolding act_all accepted
  act_all-IsFifo [] s h = record { order = sym (append-nil _); bound = h; same_capacity = refl }
  act_all-IsFifo (puts x ∷ rest) s h =
      let step = put-IsFifo x s h in
      IsFifo-chain s (act (puts x) s) (act_all rest (act (puts x) s))
        (if is_full s.1 then [] else x ∷ []) (accepted rest (act (puts x) s)) step
        (act_all-IsFifo rest (act (puts x) s) step.bound)
  act_all-IsFifo (takes ∷ rest) s h =
      let step = take-IsFifo s h in
      IsFifo-chain s (act takes s) (act_all rest (act takes s)) [] (accepted rest (act takes s))
        step (act_all-IsFifo rest (act takes s) step.bound)
