-- ===== src/Base.antt =====
-- The names that every part shares: the library's, passed on, and those of the children (Boolean
-- tests, lists over native numbers, memory as a function, results with faults).
pub mod Tests
pub mod Lists
pub mod Block
pub mod Outcome
pub mod Int
pub use Tests.*
unfoldable pub use Lists.*
unfoldable pub use Block.*
pub use Outcome.*
pub use Int.*
pub use Prim.Native.Nat.{ℕ, zero, suc, ◌+◌, ◌-◌, ◌*◌, ◌/◌, ◌%◌, ◌^◌, ◌≤◌, ◌<◌, min}
pub use mathlib.Core.Path.{◌≡◌, refl, sym, ap, ◌∙◌, subst}
pub use mathlib.Core.Logic.{◌≢◌, ◌↔◌, ◌⊎◌, inl, inr}
pub use mathlib.Core.Bool.{Bool, true, false, not, ◌&&◌, ◌||◌}
pub use mathlib.Core.Option.{Option, none, some}
pub use mathlib.Core.List.{List, [], ◌∷◌, ◌++◌, map, append-nil, append_assoc}
pub use native.Mathlib.Omega.{arith}
