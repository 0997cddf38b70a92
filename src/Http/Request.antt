-- ===== src/Http/Request.antt =====
-- The data that the parser fills in (src/http/httpParser.h), and `starts_with` (src/tool/util.cpp).
use adl_server.Base.{
  ℕ, ◌+◌, Bool, true, false, List, [], ◌∷◌, Bytes, Memory, bytes_eq, ◌≡◌, ◌==◌, if◌then◌else◌,
  Option, none, some,
}

pub data Method : Type 0 where
  get post dont_understand : Method

-- `method_` is not initialised: `none` is its value until `setMethod`.
pub record RequestLine : Type 0 where
  pub version : Bytes
  pub url : Bytes
  pub method : Option Method

abbrev pub HeadMap : Type 0
HeadMap = List (Bytes × Bytes)

-- `headMap_.insert({k, v})` of std::map: a key that is there keeps its value.
unfoldable pub add : Bytes → Bytes → HeadMap → HeadMap
add k v [] = (k, v) ∷ []
add k v ((j, w) ∷ m) = if bytes_eq j k then (j, w) ∷ m else (j, w) ∷ add k v m

-- `headMap_.erase(k)`.
unfoldable pub remove : Bytes → HeadMap → HeadMap
remove k [] = []
remove k ((j, w) ∷ m) = if bytes_eq j k then m else (j, w) ∷ remove k m

-- `headMap_.find(k)`.
unfoldable pub find : Bytes → HeadMap → Option (Bytes × Bytes)
find k [] = none
find k ((j, w) ∷ m) = if bytes_eq j k then some (j, w) else find k m

-- A key that is missing gives a pair of empty strings, or an empty string.
unfoldable pub get_pair : HeadMap → Bytes → Bytes × Bytes
get_pair m k = elim (find k m) [ none ↦ ([], []) | some kv ↦ kv ]

unfoldable pub get_value : HeadMap → Bytes → Bytes
get_value m k = elim (find k m) [ none ↦ [] | some (j, v) ↦ v ]

pub record Request : Type 0 where
  pub parse_size : ℕ
  pub line : RequestLine
  pub head : HeadMap
  pub body : Bytes

-- `new httpRequest()`.
abbrev pub new_request : Request
new_request = record {
  parse_size = 0;
  line = record { version = []; url = []; method = none };
  head = [];
  body = [];
}

-- `starts_with(buf + i, prefix)`; a prefix has no NUL but the one that ends it.
unfoldable pub starts_with : Memory → ℕ → Bytes → Bool
starts_with m i [] = true
starts_with m i (p ∷ ps) = if m i == p then starts_with m (i + 1) ps else false

pub get_pair_found :
    (m : HeadMap) (k : Bytes) (kv : Bytes × Bytes) → find k m ≡ some kv → get_pair m k ≡ kv
unfolding get_pair
get_pair_found m k kv e = rw (e, get_pair)
