-- ===== src/Http/Server/Examples.antt =====
-- A connection with a request that was posted, and a file that has something in it already.
use adl_server.Base.{
  ℕ, ◌+◌, ◌-◌, ◌*◌, Bytes, codes, length, load, true, [], ◌∷◌, Option, none, some, ℤ, pos,
}
use adl_server.Http.Request.{post}
use adl_server.Http.Parser.Grammar.{Message, print}
use adl_server.Http.Server.{Disk}
use adl_server.Http.Server.Posted.{read_post, reply_head}
use adl_server.Log.FileApp.{FileApp}
use adl_server.TcpConnection.{Connection}
use adl_server.TcpConnection.Examples.{fresh}

abbrev one_digit : ℕ → Bytes
one_digit n = (48 + n) ∷ []

abbrev disk : Disk
disk = record {
  pages = λ path. none;
  can_open = λ name. true;
  held = λ name. codes "old";
  fwrite = λ name k s. length s;
  rand = 7;
}

-- A POST request of 43 bytes with one more behind it.
abbrev decimal : ℕ → Bytes → ℕ
decimal acc [] = acc
decimal acc (d ∷ ds) = decimal (acc * 10 + (d - b'0')) ds

abbrev digits : Bytes → Option ℤ
digits v = some (pos (decimal 0 v))

abbrev upload : Message
upload = record {
  method = post;
  url = codes "/up";
  version = codes "HTTP/1.0";
  fields = (codes "Content-Length", codes "3") ∷ [];
}

abbrev uploading : Connection
uploading = record fresh {
  input = record { cells = load (print upload (codes "abcd")); r = 0; w = 44; alloc = 64 };
}

-- The head of the reply, as it goes to the system.
abbrev reply_text : Bytes
reply_text = reply_head one_digit (read_post upload (codes "abc"))
