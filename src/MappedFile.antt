-- ===== src/MappedFile.antt =====
-- src/file_options/mmap_wrap.hpp: a file that is mapped into memory. The results of open, fstat and
-- mmap are arguments, `none` for a call that fails; the calls that release something are a log.
mod Examples
use adl_server.Base.{ℕ, List, [], ◌∷◌, ◌++◌, Option, none, some, ◌≡◌, refl}

pub data Release : Type 0 where
  unmaps : ℕ → ℕ → Release
  closes : ℕ → Release

-- `none` is -1 for the descriptor, and MAP_FAILED for the address.
pub record MappedFile : Type 0 where
  pub fd : Option ℕ
  pub size : ℕ
  pub addr : Option ℕ

-- `cleanup`, in its two parts.
unfoldable pub unmap : Option ℕ → ℕ → List Release
unmap none size = []
unmap (some a) size = unmaps a size ∷ []

unfoldable pub close : Option ℕ → List Release
close none = []
close (some d) = closes d ∷ []

unfoldable pub cleanup : MappedFile → MappedFile × List Release
cleanup m = (record { fd = none; size = 0; addr = none }, unmap m.addr m.size ++ close m.fd)

-- How the constructor ends: with an object, or with an exception and the object that is left.
pub data Construction : Type 0 where
  built : MappedFile → Construction
  thrown : MappedFile → List Release → Construction

abbrev mapping : ℕ → ℕ → Option ℕ → MappedFile
mapping d size addr = record { fd = some d; size = size; addr = addr }

abbrev pub give_up : MappedFile → Construction
give_up m = let (left, released) = cleanup m in thrown left released

unfoldable pub construct : Option ℕ → Option ℕ → Option ℕ → Construction
construct none stat mapped = thrown (record { fd = none; size = 0; addr = none }) []
construct (some d) none mapped = give_up (mapping d 0 none)
construct (some d) (some size) none = give_up (mapping d size none)
construct (some d) (some size) (some a) = built (mapping d size (some a))

-- All that is released from the constructor to the end of the object, the destructor included where
-- there is one.
unfoldable pub whole_life : Construction → List Release
whole_life (built m) = let (left, released) = cleanup m in released
whole_life (thrown left released) = released

-- What is to be released.
abbrev pub due : Option ℕ → Option ℕ → Option ℕ → List Release
due none stat mapped = []
due (some d) (some size) (some a) = unmaps a size ∷ closes d ∷ []
due (some d) _ _ = closes d ∷ []

-- Whichever of the calls fail: what the constructor has opened and mapped is released once, the
-- mapping with its size and before the descriptor, by the constructor where it throws and else by the
-- destructor.
pub whole_life_lem :
    (opens stat mapped : Option ℕ)
    → whole_life (construct opens stat mapped) ≡ due opens stat mapped
unfolding whole_life construct cleanup unmap close
whole_life_lem none stat mapped = refl
whole_life_lem (some d) none mapped = refl
whole_life_lem (some d) (some size) none = refl
whole_life_lem (some d) (some size) (some a) = refl
