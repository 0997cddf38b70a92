-- ===== src/NetBuffer/Refinement.antt =====
-- The buffer against what it promises: a queue of bytes, whatever the program does with it.
use adl_server.Base.{
  ℕ, ◌+◌, ◌*◌, ◌≡◌, ap, List, [], ◌∷◌, ◌++◌, Bytes, length, take, drop, ltb, leb, if◌then◌else◌,
  Option, none, some, Result, ok, ◌>>=◌, arith, Option-cases, inl, inr,
}
use adl_server.NetBuffer.Contents.{
  append_total, retrieve_lem, retrieve_as_string_lem, retrieve_all_as_string_lem, read_int_lem,
  length-contents, retrieve_all_lem,
}
use adl_server.NetBuffer.Invariant.{IsValid}
use adl_server.NetBuffer.{
  NetBuffer, int_limit, append, retrieve, retrieve_as_string, retrieve_all_as_string, retrieve_all,
  read_int, contents,
}

pub data Call : Type 0 where
  appends : Bytes → Call
  retrieves takes : ℕ → Call
  clears takes_all reads_int : Call

-- A call on the buffer: the string that it returns (empty for the calls that return none).
unfoldable pub perform : NetBuffer → Call → Result (Bytes × NetBuffer)
perform b (appends bytes) = do c ← append b bytes; ok ([], c)
perform b (retrieves len) = do c ← retrieve b len; ok ([], c)
perform b (takes len) = retrieve_as_string b len
perform b clears = ok ([], retrieve_all b)
perform b takes_all = retrieve_all_as_string b
perform b reads_int = read_int b

unfoldable pub run : NetBuffer → List Call → Result (Bytes × NetBuffer)
run b [] = ok ([], b)
run b (c ∷ cs) = do (out, b') ← perform b c; (outs, b'') ← run b' cs; ok (out ++ outs, b'')

-- The specification: bytes come out in the order in which they went in. `none` where a call asks for
-- more bytes than there are, or the queue would reach 2^30 bytes.
abbrev pub queue_step : Bytes → Call → Option (Bytes × Bytes)
queue_step q (appends bytes) =
    if ltb (2 * (length q + length bytes)) int_limit then some ([], q ++ bytes) else none
queue_step q (retrieves len) = if leb len (length q) then some ([], drop len q) else none
queue_step q (takes len) = if leb len (length q) then some (take len q, drop len q) else none
queue_step q clears = some ([], [])
queue_step q takes_all = some (q, [])
queue_step q reads_int = if leb 4 (length q) then some (take 4 q, drop 4 q) else none

abbrev pub queue_run : Bytes → List Call → Option (Bytes × Bytes)
queue_run q [] = some ([], q)
queue_run q (c ∷ cs) = elim (queue_step q c) [
  | none ↦ none
  | some (out, q') ↦ elim (queue_run q' cs) [
    | none ↦ none
    | some (outs, q'') ↦ some (out ++ outs, q'')
  ]
]

perform_refines :
    (b : NetBuffer) (c : Call) (out q : Bytes)
    → IsValid b
    → queue_step (contents b) c ≡ some (out, q)
    → (b' : NetBuffer) × (perform b c ≡ ok (out, b')) × IsValid b' × (contents b' ≡ q)
unfolding perform
perform_refines b (appends bytes) out q v h =
    let size = length-contents b in
    let (c, e, valid, same) = append_total b bytes v (ground (arith, h, size)) in
    (c, rw e (ground arith), valid, ground arith)
perform_refines b (retrieves len) out q v h =
    let (c, e, valid, same) = (retrieve_lem b len v).0 (ground (arith, length-contents b)) in
    (c, rw e (ground arith), valid, ground arith)
perform_refines b (takes len) out q v h =
    let (c, e, valid, same) =
      (retrieve_as_string_lem b len v).0 (ground (arith, length-contents b)) in
    (c, rw e (ground arith), valid, ground arith)
perform_refines b takes_all out q v h =
    let (c, e, valid, same) = retrieve_all_as_string_lem b v in
    (c, rw e (ground arith), valid, ground arith)
perform_refines b reads_int out q v h =
    let (c, e, valid, same) =
      (retrieve_as_string_lem b 4 v).0 (ground (arith, h, length-contents b)) in
    (c, rw (read_int_lem b) (rw e (ground arith)), valid, ground arith)
perform_refines b clears out q v h = (
  retrieve_all b,
  ground arith,
  (retrieve_all_lem b v).0,
  ground (arith, (retrieve_all_lem b v).1),
)

queue_split :
    (q : Bytes) (c : Call) (cs : List Call) {outs last : Bytes}
    → queue_run q (c ∷ cs) ≡ some (outs, last)
    → (out : Bytes) × (mid : Bytes) × (outs' : Bytes) × (queue_step q c ≡ some (out, mid))
      × (queue_run mid cs ≡ some (outs', last))
      × (out ++ outs' ≡ outs)
queue_split q c cs {outs} {last} h = elim (Option-cases (queue_step q c)) [
  | inl e ↦ absurd (ground (arith, e))
  | inr ((out, mid), e) ↦ elim (Option-cases (queue_run mid cs)) [
    | inl f ↦ absurd (ground (arith, e, f))
    | inr ((outs', end), f) ↦ (out, mid, outs', e, ground (arith, e, f), ground (arith, e, f))
  ]
]

-- Every history that the queue allows runs without a fault from a valid buffer: it returns the same
-- bytes in the same order, and leaves a valid buffer that holds what the queue holds.
pub run_refines :
    (cs : List Call) (b : NetBuffer) (outs q : Bytes)
    → IsValid b
    → queue_run (contents b) cs ≡ some (outs, q)
    → (b' : NetBuffer) × (run b cs ≡ ok (outs, b')) × IsValid b' × (contents b' ≡ q)
unfolding run
run_refines [] b outs q v h = (b, ground arith, v, ground arith)
run_refines (c ∷ cs) b outs q v h =
    let (out, mid, outs', s, t, joined) = queue_split (contents b) c cs h in
    let (b', e, valid, same) = perform_refines b c out mid v s in
    let (b'', f, valid', same') = run_refines cs b' outs' q valid (rw same t) in
    (b'', rw (e, f) (ap (λ (o : Bytes). ok (o, b'')) joined), valid', same')
