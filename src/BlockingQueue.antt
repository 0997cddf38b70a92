-- ===== src/BlockingQueue.antt =====
-- src/base/BlockingQueue.h and src/base/BoundedBlockingQueue.h: the queues between threads. An
-- operation under the lock is one step; `none` is a thread that waits on the condition variable, and
-- the loop around the wait makes it try again.
pub mod Fifo
mod Examples
use adl_server.Base.{
  ℕ, suc, Bool, true, false, not, List, [], ◌∷◌, ◌++◌, length, leb, ◌==◌, if◌then◌else◌, Option,
  none, some,
}

-- `boost::circular_buffer` with its capacity, the front first.
pub record Bounded {ℓ} (A : Type ℓ) : Type ℓ where
  pub capacity : ℕ
  pub items : List A

module _ {ℓ} {A : Type ℓ} where
  abbrev pub new_bounded : ℕ → Bounded A
  new_bounded max_size = record { capacity = max_size; items = [] }

  unfoldable pub is_full : Bounded A → Bool
  is_full q = leb q.capacity (length q.items)

  unfoldable pub is_empty : Bounded A → Bool
  is_empty q = length q.items == 0

  -- `size()`, whose result has the type bool.
  unfoldable pub size : Bounded A → Bool
  size q = not (length q.items == 0)

  unfoldable pub put : A → Bounded A → Option (Bounded A)
  put x q = if is_full q then none else some (record q { items = q.items ++ (x ∷ []) })

  unfoldable pub take_by : List A → Bounded A → Option (A × Bounded A)
  take_by [] q = none
  take_by (x ∷ xs) q = some (x, record q { items = xs })

  unfoldable pub take : Bounded A → Option (A × Bounded A)
  take q = take_by q.items q

  -- The queue without a bound.
  unfoldable pub put_unbounded : A → List A → List A
  put_unbounded x q = q ++ (x ∷ [])

  unfoldable pub take_unbounded : List A → Option (A × List A)
  take_unbounded [] = none
  take_unbounded (x ∷ xs) = some (x, xs)
