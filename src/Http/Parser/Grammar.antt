-- ===== src/Http/Parser/Grammar.antt =====
-- The requests that the parser is meant to read, as they are written on the wire. The blank behind a
-- key stands behind a colon, which the parser drops without looking at it.
use adl_server.Base.{ℕ, ◌+◌, ◌≡◌, ◌⊎◌, List, [], ◌∷◌, ◌++◌, Bytes, codes, length}
use adl_server.Http.Request.{Method, get, post, HeadMap, add}
use adl_server.Http.Parser.Locate.{Free}

abbrev pub crlf : Bytes
crlf = b'\r' ∷ b'\n' ∷ []

pub record Message : Type 0 where
  pub method : Method
  pub url : Bytes
  pub version : Bytes
  pub fields : List (Bytes × Bytes)

abbrev pub method_name : Method → Bytes
method_name get = codes "GET"
method_name post = codes "POST"
method_name _ = []

-- Each piece of the request line stands in front of what follows it.
abbrev pub print_line : Message → Bytes → Bytes
print_line r rest =
    method_name r.method ++ (b' ' ∷ (r.url ++ (b' ' ∷ (r.version ++ (b'\r' ∷ b'\n' ∷ rest)))))

abbrev pub print_fields : List (Bytes × Bytes) → Bytes → Bytes
print_fields [] rest = b'\r' ∷ b'\n' ∷ rest
print_fields ((k, v) ∷ fs) rest = k ++ (b':' ∷ b' ' ∷ (v ++ (b'\r' ∷ b'\n' ∷ print_fields fs rest)))

-- A request with what follows its blank line.
abbrev pub print : Message → Bytes → Bytes
print r rest = print_line r (print_fields r.fields rest)

abbrev pub line_length : Message → ℕ
line_length r = length (method_name r.method) + length r.url + 12

abbrev pub fields_length : List (Bytes × Bytes) → ℕ
fields_length [] = 2
fields_length ((k, v) ∷ fs) = length k + length v + 4 + fields_length fs

-- The bytes of a request up to the end of its blank line.
abbrev pub head_length : Message → ℕ
head_length r = line_length r + fields_length r.fields

-- The header map: of two fields with one key the first counts.
abbrev pub add_all : List (Bytes × Bytes) → HeadMap → HeadMap
add_all [] m = m
add_all ((k, v) ∷ fs) m = add_all fs (add k v m)

abbrev pub IsVersion : Bytes → Type 0
IsVersion v = (v ≡ codes "HTTP/1.1") ⊎ (v ≡ codes "HTTP/1.0")

abbrev pub AreFields : List (Bytes × Bytes) → Type 0
AreFields [] = Unit
AreFields ((k, v) ∷ fs) = Free b' ' k × Free b'\r' k × Free b'\r' v × AreFields fs

-- No blank in the URL or a key, no carriage return but in the line ends.
pub record IsMessage (r : Message) : Type 0 where
  pub known : (r.method ≡ get) ⊎ (r.method ≡ post)
  pub url_blank : Free b' ' r.url
  pub url_cr : Free b'\r' r.url
  pub version_known : IsVersion r.version
  pub fields_fit : AreFields r.fields
