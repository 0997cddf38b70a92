-- ===== src/Http/Respond.antt =====
-- src/http/httpRespond.h: the response, which is built up and then sent over a connection.
-- `std::to_string` is an argument.
pub mod Reply
mod Examples
use adl_server.Base.{
  ℕ, zero, suc, Bool, true, false, not, ◌&&◌, List, [], ◌∷◌, ◌++◌, Bytes, codes, length, bytes_eq,
  ltb, ◌==◌, if◌then◌else◌, Option, none, some, Result, ok, ◌>>=◌,
}
use adl_server.NetBuffer.ReadFd.{ReadOutcome}
use adl_server.Http.Request.{HeadMap}
use adl_server.TcpConnection.{Connection, WriteOutcome, send}
use adl_server.TcpConnection.File.{send_file}

pub data Status : Type 0 where
  ok_200 bad_request_400 not_found_404 : Status

-- `repString`.
abbrev pub reason : Status → Bytes
reason ok_200 = codes "200 OK"
reason bad_request_400 = codes "400 Bad Request"
reason not_found_404 = codes "404 Not Found"

-- `fd` is `none` for -1.
pub record Respond : Type 0 where
  pub size : ℕ
  pub status : Status
  pub head_map : HeadMap
  pub version : Bytes
  pub fd : Option ℕ
  pub body : Bytes

-- The order of std::string.
unfoldable pub bytes_lt : Bytes → Bytes → Bool
bytes_lt _ [] = false
bytes_lt [] (y ∷ ys) = true
bytes_lt (x ∷ xs) (y ∷ ys) = if x == y then bytes_lt xs ys else ltb x y

-- `headMap_[key] = value` of std::map: the keys are in order, and a value that is there is replaced.
unfoldable pub assign : Bytes → Bytes → HeadMap → HeadMap
assign k v [] = (k, v) ∷ []
assign k v ((j, w) ∷ m) =
    if bytes_eq j k
    then (k, v) ∷ m
    else if bytes_lt k j
    then (k, v) ∷ (j, w) ∷ m
    else (j, w) ∷ assign k v m

unfoldable pub add_header : Bytes → Bytes → Respond → Respond
add_header k v r = record r { head_map = assign k v r.head_map }

unfoldable pub add_content_type : Bytes → Respond → Respond
add_content_type t r = add_header (codes "Content-Type") t r

unfoldable pub add_keep_alive : Bool → Respond → Respond
add_keep_alive on r =
    add_header (codes "Connection") (if on then codes "keep-alive" else codes "Close") r

module _ (to_string : ℕ → Bytes) where
  unfoldable pub add_content_size : ℕ → Respond → Respond
  add_content_size n r = add_header (codes "Content-Length") (to_string n) (record r { size = n })

  unfoldable pub set_body : Bytes → Respond → Respond
  set_body b r = add_content_size (length b) (record r { body = b })

unfoldable pub fields_text : HeadMap → Bytes
fields_text [] = []
fields_text ((k, v) ∷ m) = k ++ (codes ": " ++ (v ++ (codes "\r\n" ++ fields_text m)))

unfoldable pub head_text : Respond → Bytes
head_text r =
    r.version
    ++ (b' ' ∷ (reason r.status ++ (codes "\r\n" ++ (fields_text r.head_map ++ codes "\r\n"))))

-- `fd_ > 0 && size_ > 0`.
unfoldable pub sends_file : Option ℕ → ℕ → Bool
sends_file (some (suc fd)) (suc n) = true
sends_file _ _ = false

-- The part behind the head: `file` holds the bytes of the linked file.
unfoldable pub respond_body :
    Bytes → WriteOutcome → List ReadOutcome → Option ℕ → Respond → Connection → Result Connection
respond_body file o env none r c = if length r.body == r.size then send o r.body c else ok c
respond_body file o env (some fd) r c =
    if sends_file (some fd) r.size
    then send_file fd file o env c
    else if length r.body == r.size
    then send o r.body c
    else ok c

unfoldable pub respond :
    Bytes
    → WriteOutcome
    → WriteOutcome
    → List ReadOutcome
    → Respond
    → Connection
    → Result Connection
respond file o1 o2 env r c = do d ← send o1 (head_text r) c; respond_body file o2 env r.fd r d
