-- ===== src/Http/Respond/Examples.antt =====
-- The reply to a request that was posted, over a new connection.
use adl_server.Base.{ℕ, ◌+◌, ◌++◌, [], ◌∷◌, Bytes, codes, none, some, ok, ◌≡◌, refl, arith}
use adl_server.Http.Request.{find}
use adl_server.Http.Respond.{
  Respond, ok_200, respond, set_body, head_text, add_content_size, add_header, assign, fields_text,
}
use adl_server.Http.Respond.Reply.{respond-set_body}
use adl_server.TcpConnection.{Connection, wrote, would_block}
use adl_server.TcpConnection.Examples.{fresh, fresh-IsSettled}
use adl_server.TcpConnection.Order.{Step}

abbrev digits : ℕ → Bytes
digits n = (48 + n) ∷ []

abbrev reply : Respond
reply = record {
  size = 0;
  status = ok_200;
  head_map = [];
  version = codes "HTTP/1.1";
  fd = none;
  body = [];
}

reply_text :
    head_text (set_body digits (codes "saved") reply)
    ≡ codes "HTTP/1.1 200 OK\r\nContent-Length: 5\r\n\r\n"
unfolding head_text set_body add_content_size add_header assign fields_text
reply_text = refl

respond-set_body_example :
    (find (codes "Content-Length") (set_body digits (codes "saved") reply).head_map
      ≡ some (codes "Content-Length", codes "5"))
    × ((d : Connection) × (respond []
            (wrote 1)
            would_block
            []
            (set_body digits (codes "saved") reply)
            fresh
          ≡ ok d)
        × Step fresh d (head_text (set_body digits (codes "saved") reply) ++ codes "saved"))
unfolding head_text set_body add_content_size add_header assign fields_text
respond-set_body_example =
    respond-set_body digits [] (codes "saved") (wrote 1) would_block [] reply fresh refl
      fresh-IsSettled refl (omega arith) tt (omega arith)
