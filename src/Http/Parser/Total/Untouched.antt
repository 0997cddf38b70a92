-- ===== src/Http/Parser/Total/Untouched.antt =====
-- The request line is read without a change to the memory.
use adl_server.Base.{◌+◌, ◌-◌, ◌≡◌, refl, inl, inr, ◌==◌, Bool-cases, arith, some}
use adl_server.Http.Request.{get, post}
use adl_server.Http.Parser.{
  Parser, skip_past, LineEnd, found, cut, scan_line, set_line, read_method, after_method, read_url,
  read_version, request_line_parse,
}

read_version_buf : (p : Parser) → (read_version p).buf ≡ p.buf
unfolding read_version
read_version_buf p = ground arith

read_url_buf : (p : Parser) → (read_url p).buf ≡ p.buf
unfolding read_url
read_url_buf p =
    let after = skip_past p.buf b' ' (p.l_end - p.cur) p.cur in
    elim (Bool-cases (after == p.l_end)) [ inl e ↦ rw e | inr ne ↦ rw ne (read_version_buf _) ]

after_method_buf : (p : Parser) → (after_method p).buf ≡ p.buf
unfolding after_method
after_method_buf p = ground (arith, read_url_buf (record p { cur = p.cur + 1 }))

read_method_buf : (p : Parser) → (read_method p).buf ≡ p.buf
unfolding read_method
read_method_buf p = ground (
  arith,
  after_method_buf
      (record (set_line p (record p.request.line { method = some get })) { cur = p.cur + 3 }),
  after_method_buf
      (record (set_line p (record p.request.line { method = some post })) { cur = p.cur + 4 }),
)

pub request_line_parse_buf : (p : Parser) → (request_line_parse p).buf ≡ p.buf
unfolding request_line_parse
request_line_parse_buf p = go (scan_line p.buf (p.len - p.cur) p.cur) refl
  where
    go :
        (e : LineEnd)
        → scan_line p.buf (p.len - p.cur) p.cur ≡ e
        → (request_line_parse p).buf ≡ p.buf
    go (found e) q = rw (q, request_line_parse) (read_method_buf _)
    go (cut e) q = rw (q, request_line_parse)
