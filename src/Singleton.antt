-- ===== src/Singleton.antt =====
-- src/base/Singleton.hpp: `getInstance` of `use_memory_barrier::Singleton` and
-- `learn_from_csdn::Singleton`, called by any number of threads. A thread moves from one access of
-- shared memory to the next; the fences make the loads and stores appear in the order in which they
-- stand. An object is a number: the n-th `new` makes the object n.
pub mod Once
mod Examples
use adl_server.Base.{ℕ, suc, ◌+◌, Bool, true, false, Option, none, some, ◌==◌, if◌then◌else◌, ◌≡◌}

-- Before the first load; before the lock; before the second load; before the `new`; before the
-- store of an object; before the release of the lock; behind the return.
pub data Pc : Type 0 where
  loading locking checking building : Pc
  storing leaving returned : ℕ → Pc

-- `instance` is `m_instance`, `owner` the thread that holds `m_mutex`; `built` counts the objects that
-- were made.
pub record Shared : Type 0 where
  pub instance : Option ℕ
  pub owner : Option ℕ
  pub built : ℕ

pub record System : Type 0 where
  pub mem : Shared
  pub pc : ℕ → Pc

abbrev pub new_system : System
new_system = record { mem = record { instance = none; owner = none; built = 0 }; pc = λ i. loading }

-- The pointer that the first load gives, and the one that the second gives.
unfoldable pub after_load : Option ℕ → Pc
after_load none = locking
after_load (some p) = returned p

unfoldable pub after_check : Option ℕ → Pc
after_check none = building
after_check (some p) = leaving p

-- The next step of thread `i` at a position, which is possible at `locking` just while the lock is free.
unfoldable pub advance : ℕ → Pc → Shared → Shared × Pc
advance i loading m = (m, after_load m.instance)
advance i locking m = (record m { owner = some i }, checking)
advance i checking m = (m, after_check m.instance)
advance i building m = (record m { built = suc m.built }, storing m.built)
advance i (storing p) m = (record m { instance = some p }, leaving p)
advance i (leaving p) m = (record m { owner = none }, returned p)
advance i (returned p) m = (m, returned p)

unfoldable pub update : (ℕ → Pc) → ℕ → Pc → ℕ → Pc
update pc i q j = if j == i then q else pc j

unfoldable pub thread_step : ℕ → System → System
thread_step i s = let (m, q) = advance i (s.pc i) s.mem in record { mem = m; pc = update s.pc i q }

abbrev pub CanGo : Pc → Option ℕ → Type 0
CanGo locking owner = owner ≡ none
CanGo _ owner = Unit {0}

pub data Step : System → System → Type 0 where
  goes : (i : ℕ) (s : System) → CanGo (s.pc i) s.mem.owner → Step s (thread_step i s)

pub data Steps : System → System → Type 0 where
  stay : (s : System) → Steps s s
  go : (s t u : System) → Steps s t → Step t u → Steps s u
