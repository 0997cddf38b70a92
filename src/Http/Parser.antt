-- ===== src/Http/Parser.antt =====
-- src/http/httpParser.cpp. `buf` is the memory from `peek()` on: what lies past `len` is stale, and
-- the parser does read some of it. `stoi` of the C++ library is an argument.
pub mod Bounds
pub mod Locate
pub mod Grammar
pub mod RoundTrip
pub mod Loop
pub mod Stuck
pub mod Total
pub mod NoLength
pub mod Broken
pub mod Cut
mod Examples
use adl_server.Base.{
  ℕ, zero, suc, ◌+◌, ◌-◌, ◌^◌, Bool, true, false, not, ◌&&◌, ◌||◌, List, [], ◌∷◌, Bytes, codes,
  length, Memory, slice, bytes_eq, ltb, leb, ◌==◌, if◌then◌else◌, Option, none, some, Result, ok,
  fault, check, endless, overflow, uncaught, ◌>>=◌, ◌>>◌, ℤ, pos, negsuc,
}
use adl_server.Http.Request.{
  Method, get, post, RequestLine, Request, new_request, HeadMap, add, get_pair, starts_with,
}

pub data FinalState : Type 0 where
  success failed incomplete : FinalState

pub data LineState : Type 0 where
  line_ok line_bad line_incomplete : LineState

pub data ProcessState : Type 0 where
  in_line in_head in_body : ProcessState

pub record Parser : Type 0 where
  pub final : FinalState
  pub line_state : LineState
  pub process : ProcessState
  pub request : Request
  pub l_beg : ℕ
  pub l_end : ℕ
  pub cur : ℕ
  pub buf : Memory
  pub len : ℕ

-- `httpParser(buf, len)`.
abbrev pub init : Memory → ℕ → Parser
init m len = record {
  final = incomplete;
  line_state = line_incomplete;
  process = in_line;
  request = new_request;
  l_beg = 0;
  l_end = 0;
  cur = 0;
  buf = m;
  len = len;
}

-- The first loop of `requestLineParse`; `left` is `len_ - cur_`. It ends behind "\r\n", or at the end
-- of the data with no line end, or at a '\r' that is the last byte.
pub data LineEnd : Type 0 where
  found cut : ℕ → LineEnd

unfoldable pub scan_line : Memory → ℕ → ℕ → LineEnd
scan_line m zero cur = found cur
scan_line m (suc zero) cur = if m cur == b'\r' then cut (cur + 1) else found (cur + 1)
scan_line m (suc (suc left)) cur = elim (m cur == b'\r') [
  | true ↦ elim (m (cur + 1) == b'\n') [
    | true ↦ found (cur + 2)
    | false ↦ scan_line m left (cur + 2)
  ]
  | false ↦ scan_line m (suc left) (cur + 1)
]

-- `while (cur != end && buf[cur++] != c) continue;` with `left` bytes up to `end`.
unfoldable pub skip_past : Memory → ℕ → ℕ → ℕ → ℕ
skip_past m c zero cur = cur
skip_past m c (suc left) cur = if m cur == c then cur + 1 else skip_past m c left (cur + 1)

-- `for (; cur < end; cur++) if (buf[cur] == c) break;` with `left` bytes up to `end`.
unfoldable pub find_byte : Memory → ℕ → ℕ → ℕ → ℕ
find_byte m c zero cur = cur
find_byte m c (suc left) cur = if m cur == c then cur else find_byte m c left (cur + 1)

-- `!strncmp(buf + i, s, strlen(s))` for a literal.
abbrev pub matches_at : Memory → ℕ → Bytes → Bool
matches_at m i s = bytes_eq (slice m i (length s)) s

abbrev pub set_line : Parser → RequestLine → Parser
set_line p l = record p { request = record p.request { line = l } }

-- The second loop of `requestLineParse`, state by state. It stops where `cur_` meets `l_end_`.
pub read_version : Parser → Parser
read_version p =
    if matches_at p.buf p.cur (codes "HTTP/1.1") || matches_at p.buf p.cur (codes "HTTP/1.0")
    then record (set_line p (record p.request.line { version = slice p.buf p.cur 8 })) {
      cur = p.l_end;
      line_state = line_ok;
    }
    else record p { cur = p.l_end; line_state = line_bad }

pub read_url : Parser → Parser
read_url p =
    let after = skip_past p.buf b' ' (p.l_end - p.cur) p.cur in
    let url = slice p.buf p.cur (after - p.cur - 1) in
    if after == p.l_end
    then record p { cur = after }
    else read_version (record (set_line p (record p.request.line { url = url })) { cur = after })

-- The blank behind the method.
pub after_method : Parser → Parser
after_method p =
    if p.cur == p.l_end
    then p
    else if not (p.buf p.cur == b' ')
    then record p { cur = p.cur + 1 }
    else if p.cur + 1 == p.l_end
    then record p { cur = p.cur + 1 }
    else read_url (record p { cur = p.cur + 1 })

-- `cur_` is `l_beg_` here.
unfoldable pub read_method : Parser → Parser
read_method p =
    let size = p.l_end - p.l_beg in
    if p.cur == p.l_end
    then p
    else if leb 3 size && starts_with p.buf p.l_beg (codes "GET")
    then after_method
        (record (set_line p (record p.request.line { method = some get })) { cur = p.cur + 3 })
    else if leb 4 size && starts_with p.buf p.l_beg (codes "POST")
    then after_method
        (record (set_line p (record p.request.line { method = some post })) { cur = p.cur + 4 })
    else record p { line_state = line_bad }

unfoldable pub request_line_parse : Parser → Parser
request_line_parse p = elim (scan_line p.buf (p.len - p.cur) p.cur) [
  | cut cur ↦ record p { cur = cur; line_state = line_incomplete }
  | found end ↦ read_method (record p { l_end = end; cur = p.l_beg })
]

-- One round of a `for` loop: it leaves the loop or goes on.
pub data Round : Type 0 where
  stop again : Parser → Round

-- A header line from `l_beg_` to `l_end_`: a blank at its start makes the range of the key end
-- before it begins, and the string constructor throws.
pub head_field : Parser → Result Round
head_field p =
    let space = find_byte p.buf b' ' (p.l_end - p.l_beg) p.l_beg in
    let key = slice p.buf p.l_beg (space - 1 - p.l_beg) in
    let value = slice p.buf (space + 1) (p.l_end - 2 - (space + 1)) in
    if space == p.l_end
    then ok (stop (record p { cur = space; line_state = line_bad }))
    else if space == p.l_beg
    then fault uncaught
    else ok (
        again (record p {
          request = record p.request { head = add key value p.request.head };
          cur = space;
          line_state = line_ok;
        }))

-- A round of `requestHeadParse`.
pub head_round : Parser → Result Round
head_round p =
    let start = record p { cur = p.l_end; l_beg = p.l_end; line_state = line_incomplete } in
    let after = skip_past p.buf b'\r' (p.len - p.l_end) p.l_end in
    if after == p.len
    then ok (stop (record start { cur = after }))
    else if not (p.buf after == b'\n')
    then ok (again (record start { cur = after + 1 }))
    else if p.l_end + 2 == after + 1
    then ok (stop (record start { cur = after + 1; l_end = after + 1; line_state = line_ok }))
    else head_field (record start { cur = after + 1; l_end = after + 1 })

-- What follows a round: `rest` is the loop from there on.
abbrev pub resume : (Parser → Result Parser) → Result Round → Result Parser
resume rest (fault e) = fault e
resume rest (ok (stop q)) = ok q
resume rest (ok (again q)) = rest q

-- `for (; cur_ != len_;)` with the body `round`, on fuel.
unfoldable pub loop : (Parser → Result Round) → ℕ → Parser → Result Parser
loop round zero p = if p.cur == p.len then ok p else fault endless
loop round (suc fuel) p = elim (p.cur == p.len) [
  | true ↦ ok p
  | false ↦ resume (loop round fuel) (round p)
]

abbrev pub request_head_parse : ℕ → Parser → Result Parser
request_head_parse = loop head_round

-- `requestBodyParse(n)`.
pub request_body_parse : Parser → ℕ → Result Parser
request_body_parse p n = do
  check (ltb (p.cur + n) (2 ^ 31)) overflow
  ok (
      if ltb p.len (p.cur + n) then record p { line_state = line_incomplete } else record p {
        request = record p.request { body = slice p.buf p.cur n };
        cur = p.cur + n;
        line_state = line_ok;
      })

-- What `parse` does after a part that left `line_state_`.
abbrev pub finish : FinalState → Parser → Result Round
finish f p = ok (stop (record p { final = f }))

abbrev pub succeed : Parser → Result Round
succeed p = finish success (record p { request = record p.request { parse_size = p.cur } })

unfoldable pub after_line : LineState → Parser → Result Round
after_line line_bad p = finish failed p
after_line line_ok p = ok (again (record p { process = in_head }))
after_line line_incomplete p = finish incomplete p

pub after_head_ok : Option Method → Parser → Result Round
after_head_ok (some get) p = succeed p
after_head_ok _ p = ok (again (record p { process = in_body }))

pub after_head : LineState → Parser → Result Round
after_head line_bad p = finish failed p
after_head line_ok p = after_head_ok p.request.line.method p
after_head line_incomplete p = finish incomplete p

pub after_body : LineState → Parser → Result Round
after_body line_bad p = finish failed p
after_body line_ok p = succeed p
after_body line_incomplete p = finish incomplete p

abbrev pub is_post : Option Method → Bool
is_post (some post) = true
is_post _ = false

-- The body's length from the header: a value that is not positive leaves the round as it began.
pub sized_body : Option ℤ → Parser → Result Round
sized_body none p = fault uncaught
sized_body (some (negsuc n)) p = ok (again p)
sized_body (some (pos zero)) p = ok (again p)
sized_body (some (pos (suc n))) p = do q ← request_body_parse p (suc n); after_body q.line_state q

module _ (stoi : Bytes → Option ℤ) (head_fuel : ℕ) where
  pub body_round : Parser → Result Round
  body_round p =
      let kv = get_pair p.request.head (codes "Content-Length") in
      if is_post p.request.line.method && not (bytes_eq kv.0 []) && ltb p.cur p.len
      then sized_body (stoi kv.1) p
      else finish failed p

  unfoldable pub round_of : ProcessState → Parser → Result Round
  round_of in_line p = let q = request_line_parse p in after_line q.line_state q
  round_of in_head p = do q ← request_head_parse head_fuel p; after_head q.line_state q
  round_of in_body p = body_round p

  unfoldable pub parse_round : Parser → Result Round
  parse_round p = round_of p.process (record p { line_state = line_incomplete })

  unfoldable pub parse : ℕ → Parser → Result Parser
  parse = loop parse_round
