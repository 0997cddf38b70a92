-- ===== src/Http/Server/Posted.antt =====
-- A request that was posted, from the bytes on the wire to the file and the reply.
use adl_server.Base.{ℕ, ◌+◌, ◌++◌, Bytes, codes, length, ◌≡◌}
use adl_server.Http.Request.{Request}
use adl_server.Http.Respond.{Respond, head_text}
use adl_server.Http.Parser.Grammar.{Message, head_length}
use adl_server.Http.Parser.RoundTrip.Rounds.{read_request}
use adl_server.Http.Server.{post_reply, keeps_alive, begin_respond}
use adl_server.Log.FileApp.{FileApp}
use adl_server.TcpConnection.{Connection}

abbrev pub post_text : Bytes → Bytes
post_text url = codes "which your sended have saved as ./source" ++ url

-- The request that is read, and its reply.
abbrev pub read_post : Message → Bytes → Request
read_post r body = record (read_request r) { parse_size = head_length r + length body; body = body }

abbrev pub reply_head : (ℕ → Bytes) → Request → Bytes
reply_head to_string q =
    head_text (post_reply to_string q.line.url (begin_respond q (keeps_alive q)))

-- A message that the system takes at once and whole.
abbrev Sent : Bytes → Connection → Connection → Type 0
Sent msg c d =
    (d.wire ≡ c.wire ++ msg)
    × (d.output ≡ c.output)
    × (d.input ≡ c.input)
    × (d.channel ≡ c.channel)
    × (d.state ≡ c.state)
