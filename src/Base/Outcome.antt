-- ===== src/Base/Outcome.antt =====
-- How a call of the program ends: with a value, or by a fault that it does not handle.
use mathlib.Core.Path.{◌≡◌, refl}
use mathlib.Core.Bool.{Bool, true, false}

-- `assert_failed`: an `assert` that does not hold; `overflow`: an int above INT_MAX;
-- `out_of_bounds`: an access outside its block; `uncaught`: an exception that nothing catches;
-- `endless`: the fuel of a loop ran out; `aborted`: a call of abort.
pub data Fault : Type 0 where
  assert_failed overflow out_of_bounds uncaught endless aborted : Fault

pub data Result {ℓ} (A : Type ℓ) : Type ℓ where
  ok : A → Result A
  fault : Fault → Result A

-- An assertion: the program stops with the fault `why` where the test fails.
abbrev pub check : Bool → Fault → Result (Unit {0})
check false why = fault why
check true why = ok tt

infixl 5 ◌>>=◌
abbrev pub ◌>>=◌ {ℓ κ} : {A : Type ℓ} {B : Type κ} → Result A → (A → Result B) → Result B
fault why >>= next = fault why
ok x >>= next = next x

infixl 5 ◌>>◌
abbrev pub ◌>>◌ {ℓ} : {C : Type ℓ} → Result (Unit {0}) → Result C → Result C
fault why >> next = fault why
ok _ >> next = next

-- A run that succeeds passed through its first part.
pub >>=-eq-ok {ℓ κ} :
    {X : Type ℓ} {Y : Type κ} (first : Result X) (next : X → Result Y) {y : Y}
    → (first >>= next) ≡ ok y
    → (x : X) × (first ≡ ok x) × (next x ≡ ok y)
>>=-eq-ok (fault why) next h = cc
>>=-eq-ok (ok x) next h = (x, refl, h)
