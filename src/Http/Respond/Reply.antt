-- ===== src/Http/Respond/Reply.antt =====
-- A response with a body, as the client receives it.
use adl_server.Base.{
  ℕ, ◌+◌, ◌*◌, ◌<◌, true, List, [], ◌∷◌, ◌++◌, Bytes, codes, length, bytes_eq, bytes_eq_iff, ◌==◌,
  Bool-cases, inl, inr, Option, none, some, Result, ok, ◌>>=◌, ◌≡◌, refl, ap, ◌∙◌, arith,
}
use adl_server.NetBuffer.{readable, int_limit}
use adl_server.NetBuffer.ReadFd.{ReadOutcome}
use adl_server.Http.Request.{HeadMap, find}
use adl_server.TcpConnection.{Connection, WriteOutcome, is_connected, send}
use adl_server.TcpConnection.Order.{FitsIn, IsSettled, Step}
use adl_server.TcpConnection.Order.Fifo.{send-Step, Step-chain}
use adl_server.Http.Respond.{
  Respond, bytes_lt, assign, add_header, add_content_size, set_body, head_text, respond_body,
  respond,
}

bytes_eq_refl : (k : Bytes) → bytes_eq k k ≡ true
bytes_eq_refl k = (bytes_eq_iff k k).1 refl

-- A header that was set is found with its value, whatever other headers there are.
find-assign : (k v : Bytes) (m : HeadMap) → find k (assign k v m) ≡ some (k, v)
unfolding find assign
find-assign k v [] = rw (bytes_eq_refl k)
find-assign k v ((j, w) ∷ m) = elim (Bool-cases (bytes_eq j k)) [
  | inl y ↦ rw (y, bytes_eq_refl k)
  | inr n ↦ elim (Bool-cases (bytes_lt k j)) [
    | inl lt ↦ rw (n, lt, bytes_eq_refl k)
    | inr ge ↦ rw (n, ge, n) (find-assign k v m)
  ]
]

-- The two sends of a response that has a body and no file.
pub respond_parts :
    (file : Bytes) (o1 o2 : WriteOutcome) (env : List ReadOutcome) (r : Respond)
    (c d end : Connection)
    → r.fd ≡ none
    → (length r.body == r.size) ≡ true
    → send o1 (head_text r) c ≡ ok d
    → send o2 r.body d ≡ ok end
    → respond file o1 o2 env r c ≡ ok end
unfolding respond respond_body
respond_parts file o1 o2 env r c d end no_file size e g =
    ap (λ (m : Result Connection). m >>= λ x. respond_body file o2 env r.fd r x) e
    ∙ ap (λ (f : Option ℕ). respond_body file o2 env f r d) no_file
    ∙ rw size g

-- A response that was given a body, and no file, over a settled connection that is up, where the
-- system takes no more than it is given and all stays below 2^30: the header "Content-Length" is
-- the size of the body, and the head and the body, whole and in order, go behind what was sent before.
pub respond-set_body :
    (to_string : ℕ → Bytes) (file body : Bytes) (o1 o2 : WriteOutcome) (env : List ReadOutcome)
    (r : Respond) (c : Connection)
    → r.fd ≡ none
    → IsSettled c
    → is_connected c.state ≡ true
    → FitsIn (length (head_text (set_body to_string body r))) o1
    → FitsIn (length body) o2
    → 2 * (readable c.output + length (head_text (set_body to_string body r)) + length body)
      < int_limit
    → (find (codes "Content-Length") (set_body to_string body r).head_map
        ≡ some (codes "Content-Length", to_string (length body)))
      × ((d : Connection) × (respond file o1 o2 env (set_body to_string body r) c ≡ ok d)
          × Step c d (head_text (set_body to_string body r) ++ body))
unfolding respond set_body add_content_size add_header
respond-set_body to_string file body o1 o2 env r c no_file s up f1 f2 small =
    let (d, e, same, step) =
      send-Step o1 (head_text (set_body to_string body r)) c s up f1 (omega (arith, small)) in
    let (end, g, same2, step2) =
      send-Step o2 body d step.settled (ap is_connected same ∙ up) f2
        (omega (arith, small, step.bound)) in
    (
      find-assign (codes "Content-Length") (to_string (length body)) r.head_map,
      (
        end,
        respond_parts file o1 o2 env (set_body to_string body r) c d end no_file (ground arith) e g,
        Step-chain c d end (head_text (set_body to_string body r)) body step step2,
      ),
    )
