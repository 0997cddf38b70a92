-- ===== src/MappedFile/Examples.antt =====
-- An empty file: mmap refuses a length of 0, and the constructor throws.
use adl_server.Base.{[], ◌∷◌, none, some, ◌≡◌}
use adl_server.MappedFile.{closes, construct, whole_life, whole_life_lem}

empty_refused : whole_life (construct (some 3) (some 0) none) ≡ closes 3 ∷ []
empty_refused = whole_life_lem (some 3) (some 0) none
