-- ===== src/Http/Parser/Examples.antt =====
-- Runs of the parser on small requests, and the theorems about it at such inputs.
use adl_server.Base.{
  ◌⊎◌, ℕ, zero, suc, ◌+◌, ◌-◌, ◌*◌, ◌≡◌, ◌≢◌, ◌<◌, refl, inl, inr, Bytes, [], ◌∷◌, codes, length,
  load, slice, bytes_eq, Result, ok, fault, endless, uncaught, ◌>>=◌, Option, some, ℤ, pos, arith,
}
use adl_server.Http.Request.{get, post, add, find, starts_with}
use adl_server.Http.Parser.Bounds.{InRange, parse-InRange}
use adl_server.Http.Parser.Broken.{parse_leading_blank}
use adl_server.Http.Parser.Cut.{parse_cut}
use adl_server.Http.Parser.Grammar.{Message, print, IsMessage}
use adl_server.Http.Parser.NoLength.{parse_no_length}
use adl_server.Http.Parser.RoundTrip.Get.{parse-print_get}
use adl_server.Http.Parser.RoundTrip.Post.{parse-print_post}
use adl_server.Http.Parser.RoundTrip.Rounds.{read_request}
use adl_server.Http.Parser.Stuck.{parse_bare_cr}
use adl_server.Http.Parser.Total.Whole.{MeetsNoLength, parse_total}
use adl_server.Http.Parser.{
  Parser, init, success, failed, incomplete, line_bad, scan_line, skip_past, find_byte,
  request_line_parse, read_method, after_method, read_url, read_version, head_round, head_field,
  loop, after_line, after_head, after_head_ok, round_of, parse_round, parse,
}

-- A reading of decimal digits in place of `stoi`.
abbrev decimal : ℕ → Bytes → ℕ
decimal acc [] = acc
decimal acc (d ∷ ds) = decimal (acc * 10 + (d - b'0')) ds

abbrev digits : Bytes → Option ℤ
digits v = some (pos (decimal 0 v))

-- The state, the size and the URL of a run.
abbrev outcome : Result Parser → Result (ℕ × Bytes)
outcome r = do q ← r; ok (q.request.parse_size, q.request.line.url)

abbrev get_bytes : Bytes
get_bytes = codes "GET /a.txt HTTP/1.1\r\nHost: me\r\n\r\nGET "

get_runs :
    outcome (parse digits 10 4 (init (load get_bytes) (length get_bytes))) ≡ ok (33, codes "/a.txt")
unfolding parse parse_round round_of request_line_parse read_method after_method read_url
    read_version scan_line skip_past find_byte head_round head_field loop after_line after_head
    after_head_ok starts_with slice bytes_eq add
get_runs = refl

abbrev get_message : Message
get_message = record {
  method = get;
  url = codes "/a.txt";
  version = codes "HTTP/1.1";
  fields = (codes "Host", codes "me") ∷ [];
}

get_message-IsMessage : IsMessage get_message
get_message-IsMessage = record {
  known = inl refl;
  url_blank = ground arith;
  url_cr = ground arith;
  version_known = inl refl;
  fields_fit = ground arith;
}

parse-InRange_example :
    InRange 2
      (record (init (load (codes "GE")) 2) { final = failed; line_state = line_bad; l_end = 2 })
unfolding parse parse_round round_of request_line_parse read_method scan_line loop after_line
    starts_with
parse-InRange_example = parse-InRange digits 10 4 (load (codes "GE")) 2 refl

parse-print_get_example :
    (q : Parser) × (parse digits 10 4 (init (load (print get_message (codes "GET "))) 37) ≡ ok q)
    × (q.final ≡ success)
    × (q.request ≡ record (read_request get_message) { parse_size = 33 })
parse-print_get_example =
    parse-print_get digits 10 4 (load (print get_message (codes "GET "))) 37 get_message
      (codes "GET ") get_message-IsMessage refl (omega arith) (omega arith) (omega arith)
      (omega arith)

abbrev post_message : Bytes → Message
post_message size = record {
  method = post;
  url = codes "/up";
  version = codes "HTTP/1.0";
  fields = (codes "Content-Length", size) ∷ [];
}

post_message-IsMessage : IsMessage (post_message (codes "3"))
post_message-IsMessage = record {
  known = inr refl;
  url_blank = ground arith;
  url_cr = ground arith;
  version_known = inr refl;
  fields_fit = ground arith;
}

empty_post-IsMessage : IsMessage (post_message (codes "0"))
empty_post-IsMessage = record {
  known = inr refl;
  url_blank = ground arith;
  url_cr = ground arith;
  version_known = inr refl;
  fields_fit = ground arith;
}

parse-print_post_example :
    (q : Parser) × (parse digits 10 4
        (init (load (print (post_message (codes "3")) (codes "abcd"))) 44)
      ≡ ok q)
    × (q.final ≡ success)
    × (q.request
        ≡ record (read_request (post_message (codes "3"))) { parse_size = 43; body = codes "abc" })
unfolding add find bytes_eq
parse-print_post_example =
    parse-print_post digits 10 4 (load (print (post_message (codes "3")) (codes "abcd"))) 44
      (post_message (codes "3")) (codes "3") (codes "abc") (codes "d") post_message-IsMessage refl
      refl refl (omega arith) (omega arith) (omega arith) (omega arith) (omega arith) (omega arith)

parse_no_length_example :
    parse digits 10 99 (init (load (print (post_message (codes "0")) (codes "a"))) 44)
    ≡ fault endless
unfolding add find bytes_eq
parse_no_length_example =
    parse_no_length digits 10 99 (load (print (post_message (codes "0")) (codes "a"))) 44
      (post_message (codes "0")) (codes "0") (codes "a") (pos 0) empty_post-IsMessage refl refl refl
      tt (omega arith) (omega arith) (omega arith)

abbrev bare : Bytes
bare = codes "GET /a.txt HTTP/1.1\r\nHost: me\r\nA: b\rc\r\n\r\n"

parse_bare_cr_example : parse digits 50 99 (init (load bare) 41) ≡ fault endless
parse_bare_cr_example =
    parse_bare_cr digits 50 99 (load bare) 41 get_message (codes "A: b") b'c' (codes "\r\n\r\n")
      get_message-IsMessage (omega arith) (ground arith) refl (omega arith)

abbrev folded : Bytes
folded = codes "GET /a.txt HTTP/1.1\r\nHost: me\r\n you\r\n\r\n"

parse_leading_blank_example : parse digits 10 4 (init (load folded) 39) ≡ fault uncaught
parse_leading_blank_example =
    parse_leading_blank digits 10 4 (load folded) 39 get_message (codes "you") (codes "\r\n")
      get_message-IsMessage (omega arith) (ground arith) (omega arith) (omega arith) (omega arith)

parse_cut_example :
    (q : Parser) × (parse digits 10 4 (init (load get_bytes) 27) ≡ ok q) × (q.final ≡ incomplete)
parse_cut_example =
    parse_cut digits 10 4 (load get_bytes) 27 (record get_message { fields = [] }) (codes "Host: ")
      (record {
        known = inl refl;
        url_blank = ground arith;
        url_cr = ground arith;
        version_known = inl refl;
        fields_fit = tt;
      })
      (omega arith) (inl (ground arith)) (omega arith) (omega arith) (omega arith)

parse_total_example :
    (parse digits 3 4 (init (load (codes "A\r")) 2) ≢ fault endless)
    ⊎ (MeetsNoLength digits 3 (init (load (codes "A\r")) 2)
        × ((more : ℕ) → parse digits 3 more (init (load (codes "A\r")) 2) ≡ fault endless))
parse_total_example =
    parse_total digits 3 4 (load (codes "A\r")) 2 no_cr (omega arith) (omega arith)
  where
    no_cr : (i : ℕ) → i + 1 < 2 → load (codes "A\r") i ≡ b'\r' → load (codes "A\r") (i + 1) ≡ b'\n'
    no_cr zero l e = absurd (omega arith)
    no_cr (suc i) l e = absurd (omega arith)
