-- ===== src/Http/Parser/RoundTrip/Line.antt =====
-- The request line, state by state of `requestLineParse`.
use adl_server.Base.{
  ℕ, ◌+◌, ◌-◌, ◌≤◌, ◌≡◌, refl, ap, sym, subst, ◌∙◌, inl, inr, true, false, ◌∷◌, ◌++◌, Bytes, codes,
  length, length-append, append_assoc, Memory, bytes_eq, ◌==◌, leb, arith, some, ◌⊎◌,
}
use adl_server.Http.Request.{Method, get, post, dont_understand, starts_with}
use adl_server.Http.Parser.Grammar.{
  Message, method_name, print_line, line_length, IsVersion, IsMessage,
}
use adl_server.Http.Parser.Locate.{
  At, Free, Free-append, At-append, slice-At-length, starts_with-At, skip_past-At, scan_line-At,
}
use adl_server.Http.Parser.{
  Parser, line_ok, found, scan_line, set_line, read_version, read_url, after_method, read_method,
  request_line_parse,
}

length-IsVersion : (v : Bytes) → IsVersion v → length v ≡ 8
length-IsVersion v (inl e) = rw e
length-IsVersion v (inr e) = rw e

IsVersion-cr : (v : Bytes) → IsVersion v → Free b'\r' v
IsVersion-cr v (inl e) = rw e (ground arith)
IsVersion-cr v (inr e) = rw e (ground arith)

read_version-At :
    (p : Parser) (v : Bytes)
    → IsVersion v
    → At p.buf p.cur v
    → read_version p ≡ record (set_line p (record p.request.line { version = v })) {
      cur = p.l_end;
      line_state = line_ok;
    }
unfolding read_version bytes_eq
read_version-At p v (inl k) h =
    let e = slice-At-length p.buf p.cur 8 v (sym (length-IsVersion v (inl k))) h in rw e (rw k)
read_version-At p v (inr k) h =
    let e = slice-At-length p.buf p.cur 8 v (sym (length-IsVersion v (inr k))) h in rw e (rw k)

read_url-At :
    (p : Parser) (url v rest : Bytes)
    → IsVersion v
    → At p.buf p.cur (url ++ (b' ' ∷ (v ++ rest)))
    → Free b' ' url
    → p.l_end ≡ p.cur + length url + 11
    → read_url p ≡ record (set_line p (record p.request.line { url = url; version = v })) {
      cur = p.l_end;
      line_state = line_ok;
    }
unfolding read_url
read_url-At p url v rest k h f e =
    let stop = skip_past-At p.buf b' ' (p.l_end - p.cur) p.cur url (v ++ rest) h f (omega arith) in
    let (here, there) = At-append p.buf p.cur url (b' ' ∷ (v ++ rest)) h in
    let text =
      slice-At-length p.buf p.cur (p.cur + length url + 1 - p.cur - 1) url (omega arith) here in
    let (at_version, _) = At-append p.buf (p.cur + length url + 1) v rest there.1 in
    let more : (p.cur + length url + 1 == p.l_end) ≡ false = ground arith in
    rw (stop, more, text)
      (read_version-At
        (record (set_line p (record p.request.line { url = url })) { cur = p.cur + length url + 1 })
        v k at_version)

after_method-At :
    (p : Parser) (url v rest : Bytes)
    → IsVersion v
    → At p.buf p.cur (b' ' ∷ (url ++ (b' ' ∷ (v ++ rest))))
    → Free b' ' url
    → p.l_end ≡ p.cur + length url + 12
    → after_method p ≡ record (set_line p (record p.request.line { url = url; version = v })) {
      cur = p.l_end;
      line_state = line_ok;
    }
unfolding after_method
after_method-At p url v rest k (blank, h) f e =
    let more : (p.cur == p.l_end) ≡ false = ground arith in
    let more' : (p.cur + 1 == p.l_end) ≡ false = ground arith in
    rw (more, blank, more')
      (read_url-At (record p { cur = p.cur + 1 }) url v rest k h f (omega arith))

-- The line behind a method that is known.
abbrev after_name : Bytes → Bytes → Bytes → Bytes
after_name url v rest = b' ' ∷ (url ++ (b' ' ∷ (v ++ rest)))

abbrev read_line : Parser → Method → Bytes → Bytes → Parser
read_line p method url v =
    record (set_line p (record { version = v; url = url; method = some method })) {
      cur = p.l_end;
      line_state = line_ok;
    }

not_get : (m : Memory) (i : ℕ) → m i ≡ b'P' → starts_with m i (codes "GET") ≡ false
unfolding starts_with
not_get m i h = rw h

from_start : (p : Parser) (s : Bytes) → p.l_beg ≡ p.cur → At p.buf p.cur s → At p.buf p.l_beg s
from_start p s b h = subst (λ i. At p.buf i s) (sym b) h

read_method-At :
    (p : Parser) (method : Method) (url v rest : Bytes)
    → (method ≡ get) ⊎ (method ≡ post)
    → IsVersion v
    → At p.buf p.cur (method_name method ++ after_name url v rest)
    → Free b' ' url
    → p.l_beg ≡ p.cur
    → p.l_end ≡ p.cur + length (method_name method) + length url + 12
    → read_method p ≡ read_line p method url v
unfolding read_method
read_method-At p get url v rest m k h f b e =
    let (name, after) = At-append p.buf p.cur (codes "GET") (after_name url v rest) h in
    let more : (p.cur == p.l_end) ≡ false = ground arith in
    let long : leb 3 (p.l_end - p.l_beg) ≡ true = ground arith in
    let is_get = starts_with-At p.buf p.l_beg (codes "GET") (from_start p (codes "GET") b name) in
    rw (more, long, is_get)
      (after_method-At
        (record (set_line p (record p.request.line { method = some get })) { cur = p.cur + 3 }) url
        v rest k after f (omega arith))
read_method-At p post url v rest m k h f b e =
    let (name, after) = At-append p.buf p.cur (codes "POST") (after_name url v rest) h in
    let more : (p.cur == p.l_end) ≡ false = ground arith in
    let long : leb 3 (p.l_end - p.l_beg) ≡ true = ground arith in
    let longer : leb 4 (p.l_end - p.l_beg) ≡ true = ground arith in
    let is_post =
      starts_with-At p.buf p.l_beg (codes "POST") (from_start p (codes "POST") b name) in
    rw (more, long, not_get p.buf p.l_beg (rw b h.0), longer, is_post)
      (after_method-At
        (record (set_line p (record p.request.line { method = some post })) { cur = p.cur + 4 }) url
        v rest k after f (omega arith))
read_method-At p dont_understand url v rest (inl m) k h f b e = cc
read_method-At p dont_understand url v rest (inr m) k h f b e = cc

name_cr : (m : Method) → Free b'\r' (method_name m)
name_cr get = ground arith
name_cr post = ground arith
name_cr dont_understand = tt

-- The line without its end.
abbrev pub line_text : Message → Bytes
line_text r = method_name r.method ++ (b' ' ∷ (r.url ++ (b' ' ∷ r.version)))

line_text_cr : (r : Message) → IsMessage r → Free b'\r' (line_text r)
line_text_cr r v =
    Free-append b'\r' (method_name r.method) (b' ' ∷ (r.url ++ (b' ' ∷ r.version)))
      (name_cr r.method)
      (
        refl,
        Free-append b'\r' r.url (b' ' ∷ r.version) v.url_cr
            (refl, IsVersion-cr r.version v.version_known),
      )

pub length-line_text : (r : Message) → IsMessage r → length (line_text r) + 2 ≡ line_length r
length-line_text r v = omega (
  arith,
  length-append (method_name r.method) (b' ' ∷ (r.url ++ (b' ' ∷ r.version))),
  length-append r.url (b' ' ∷ r.version),
  length-IsVersion r.version v.version_known,
)

pub line_text_print :
    (r : Message) (rest : Bytes) → line_text r ++ (b'\r' ∷ b'\n' ∷ rest) ≡ print_line r rest
line_text_print r rest = simp append_assoc

-- The whole line: `\r` occurs only at its end, so the scan finds that end first.
pub request_line_parse-At :
    (p : Parser) (r : Message) (rest : Bytes)
    → IsMessage r
    → At p.buf p.cur (print_line r rest)
    → p.l_beg ≡ p.cur
    → p.cur + line_length r ≤ p.len
    → request_line_parse p
      ≡ read_line (record p { l_end = p.cur + line_length r }) r.method r.url r.version
unfolding request_line_parse
request_line_parse-At p r rest v h b l =
    rw (scanned, request_line_parse)
      (read_method-At (record p { l_end = p.cur + line_length r; cur = p.l_beg }) r.method r.url
        r.version (b'\r' ∷ b'\n' ∷ rest) v.known v.version_known
        (subst (λ i. At p.buf i (print_line r rest)) (sym b) h) v.url_blank refl (omega arith))
  where
    placed : p.cur + length (line_text r) + 2 ≡ p.cur + line_length r
    placed = omega (arith, length-line_text r v)

    scanned : scan_line p.buf (p.len - p.cur) p.cur ≡ found (p.cur + line_length r)
    scanned =
        scan_line-At p.buf (p.len - p.cur) p.cur (line_text r) rest
          (subst (At p.buf p.cur) (sym (line_text_print r rest)) h) (line_text_cr r v)
          (omega (arith, length-line_text r v))
        ∙ ap found placed
