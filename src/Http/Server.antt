-- ===== src/Http/Server.antt =====
-- src/httpServer.cpp: what the server does with the bytes that a connection received. The disk is an
-- argument: for a path under ./source it gives a descriptor and the bytes of a regular file; it tells
-- which files can be opened for a posted body, what they hold already, and what `fwrite` takes.
pub mod Callback
pub mod Posted
mod Examples
use adl_server.Base.{
  ℕ, Bool, true, false, ◌||◌, List, [], ◌∷◌, ◌++◌, Bytes, codes, length, bytes_eq, if◌then◌else◌,
  Option, none, some, Result, ok, ◌>>=◌, ℤ,
}
use adl_server.NetBuffer.{readable, peek, retrieve, retrieve_all}
use adl_server.NetBuffer.ReadFd.{ReadOutcome}
use adl_server.Http.Request.{Method, get, post, Request, get_value}
use adl_server.Http.Parser.{FinalState, success, failed, incomplete, init, parse}
use adl_server.Http.Respond.{
  Status, ok_200, not_found_404, Respond, add_keep_alive, add_content_type, add_content_size,
  set_body, respond,
}
use adl_server.Log.FileApp.{FileApp, new_file_app, file_append}
use adl_server.TcpConnection.{Connection, WriteOutcome, force_close, shutdown}

abbrev pub Pages : Type 0
Pages = Bytes → Option (ℕ × Bytes)

-- `rand` is the next result of `rand()`.
pub record Disk : Type 0 where
  pub pages : Pages
  pub can_open : Bytes → Bool
  pub held : Bytes → Bytes
  pub fwrite : Bytes → ℕ → Bytes → ℕ
  pub rand : ℕ

-- The connection behind the callback, and the file that a body was saved in.
abbrev pub Answer : Type 0
Answer = Connection × Option FileApp

unfoldable pub source_path : Bytes → Bytes
source_path url =
    let path = codes "./source" ++ url in
    if bytes_eq path (codes "./source/") then path ++ codes "index.html" else path

-- `parseUrl`: the page, or the page for an error.
unfoldable pub parse_url : Pages → Bytes → Option (ℕ × Bytes) × Status
parse_url pages url = elim (pages (source_path url)) [
  | some page ↦ (some page, ok_200)
  | none ↦ (pages (codes "./source/404.html"), not_found_404)
]

-- The response as it is set up for each request; its status is set later.
unfoldable pub begin_respond : Request → Bool → Respond
begin_respond q keep = add_keep_alive keep (record {
  size = 0;
  status = ok_200;
  head_map = [];
  version = q.line.version;
  fd = none;
  body = [];
})

unfoldable pub keeps_alive : Request → Bool
keeps_alive q =
    let v = get_value q.head (codes "Connection") in
    bytes_eq v (codes "Keep-Alive") || bytes_eq v (codes "keep-alive")

unfoldable pub close_unless : Bool → Connection → Connection
close_unless keep c = if keep then c else force_close c

module _ (to_string : ℕ → Bytes) where
  unfoldable pub saved_path : ℕ → Bytes
  saved_path n = codes "./source/" ++ (to_string n ++ codes ".txt")

  -- The file for the body of a request, and what it is given; the result of `append` is not used.
  unfoldable pub save_body : Disk → Bytes → Result FileApp
  save_body disk body = do
    f ← new_file_app disk.can_open disk.held (saved_path disk.rand)
    (_, g) ← file_append disk.fwrite body f
    ok g

  unfoldable pub post_reply : Bytes → Respond → Respond
  post_reply url r =
      let typed =
        add_content_type (codes "text/html; charset=utf-8") (record r { status = ok_200 }) in
      set_body to_string (codes "which your sended have saved as ./source" ++ url) typed

module _ (to_string : ℕ → Bytes) (o1 o2 : WriteOutcome) (env : List ReadOutcome) where
  unfoldable pub answer_get :
      Option (ℕ × Bytes) × Status → Bool → Respond → Connection → Result Answer
  answer_get (none, st) keep r c = ok (force_close c, none)
  answer_get (some (fd, file), st) keep r c = do
    let sized = add_content_size to_string (length file) (record r { status = st })
    d ←
        respond file o1 o2 env
          (add_content_type (codes "text/html; charset=utf-8") (record sized { fd = some fd })) c
    ok (close_unless keep d, none)

  unfoldable pub answer_post : Disk → Request → Bool → Respond → Connection → Result Answer
  answer_post disk q keep r c = do
    f ← save_body to_string disk q.body
    d ← respond [] o1 o2 env (post_reply to_string q.line.url r) c
    ok (close_unless keep d, some f)

  unfoldable pub answer_by : Option Method → Disk → Request → Connection → Result Answer
  answer_by (some get) disk q c =
      let keep = keeps_alive q in
      answer_get (parse_url disk.pages q.line.url) keep (begin_respond q keep) c
  answer_by (some post) disk q c =
      let keep = keeps_alive q in answer_post disk q keep (begin_respond q keep) c
  answer_by _ disk q c = ok (close_unless (keeps_alive q) c, none)

  -- `successCallback`.
  unfoldable pub success_callback : Disk → Request → Connection → Result Answer
  success_callback disk q c = do
    b ← retrieve c.input q.parse_size
    answer_by q.line.method disk q (record c { input = b })

  unfoldable pub dispatch : FinalState → Disk → Request → Connection → Result Answer
  dispatch success disk q c = success_callback disk q c
  dispatch incomplete disk q c = ok (c, none)
  dispatch failed disk q c = ok (shutdown (record c { input = retrieve_all c.input }), none)

  -- `httpMessageCallback`, on the input buffer of the connection.
  unfoldable pub message_callback : (Bytes → Option ℤ) → ℕ → ℕ → Disk → Connection → Result Answer
  message_callback stoi head_fuel fuel disk c = do
    p ← parse stoi head_fuel fuel (init (peek c.input) (readable c.input))
    dispatch p.final disk p.request c
