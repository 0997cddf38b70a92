-- ===== src/Http/Server/Callback.antt =====
-- The message callback on whatever bytes have arrived.
use adl_server.Base.{
  ℕ, List, Bytes, drop, Option, none, Result, ok, ◌>>=◌, ℤ, ◌≡◌, refl, ap, ◌∙◌, arith,
}
use adl_server.NetBuffer.{NetBuffer, readable, peek, contents, retrieve_all}
use adl_server.NetBuffer.Invariant.{IsValid}
use adl_server.NetBuffer.Contents.{retrieve_lem}
use adl_server.NetBuffer.ReadFd.{ReadOutcome}
use adl_server.Http.Parser.{Parser, FinalState, success, failed, incomplete, init, parse}
use adl_server.Http.Parser.Bounds.{parse-InRange}
use adl_server.Http.Server.{Disk, answer_by, success_callback, dispatch, message_callback}
use adl_server.TcpConnection.{Connection, WriteOutcome, shutdown}

-- Where the parser returns, on any bytes in a valid input buffer: a request that is complete is taken
-- out of the buffer, which does not abort and leaves what follows it, and is then answered; one that
-- is not complete leaves the connection as it is; and one that is bad empties the buffer and shuts
-- the connection down.
pub message_callback_lem :
    (to_string : ℕ → Bytes) (o1 o2 : WriteOutcome) (env : List ReadOutcome)
    (stoi : Bytes → Option ℤ) (head_fuel fuel : ℕ) (disk : Disk) (c : Connection) (p : Parser)
    → IsValid c.input
    → parse stoi head_fuel fuel (init (peek c.input) (readable c.input)) ≡ ok p
    → (p.final ≡ success
        → (b : NetBuffer) × IsValid b
          × (contents b ≡ drop p.request.parse_size (contents c.input))
          × (message_callback to_string o1 o2 env stoi head_fuel fuel disk c
              ≡ answer_by to_string o1 o2 env p.request.line.method disk p.request
                  (record c { input = b })))
      × (p.final ≡ incomplete
          → message_callback to_string o1 o2 env stoi head_fuel fuel disk c ≡ ok (c, none))
      × (p.final ≡ failed
          → message_callback to_string o1 o2 env stoi head_fuel fuel disk c
            ≡ ok (shutdown (record c { input = retrieve_all c.input }), none))
unfolding message_callback
message_callback_lem to_string o1 o2 env stoi head_fuel fuel disk c p v e = (
  λ h.
      let fits = parse-InRange stoi head_fuel fuel (peek c.input) (readable c.input) e in
      let (b, f, valid, rest) =
        (retrieve_lem c.input p.request.parse_size v).0 (omega (arith, fits)) in
      (b, valid, rest, begins ∙ picks h ∙ (unfold dispatch success_callback in rw f)),
  λ h. begins ∙ picks h ∙ (unfold dispatch in refl),
  λ h. begins ∙ picks h ∙ (unfold dispatch in refl),
)
  where
    begins :
        message_callback to_string o1 o2 env stoi head_fuel fuel disk c
        ≡ dispatch to_string o1 o2 env p.final disk p.request c
    begins =
        ap (λ (m : Result Parser). m >>= λ q. dispatch to_string o1 o2 env q.final disk q.request c)
          e

    picks :
        {s : FinalState}
        → p.final ≡ s
        → dispatch to_string o1 o2 env p.final disk p.request c
          ≡ dispatch to_string o1 o2 env s disk p.request c
    picks h = ap (λ (s : FinalState). dispatch to_string o1 o2 env s disk p.request c) h
