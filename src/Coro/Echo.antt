-- ===== src/Coro/Echo.antt =====
-- src/net/coro/co_echo_service.cpp with co_io_recv.cpp and co_io_send.cpp: the echo service on one
-- connection. The results of the awaited calls of recv and send are arguments: what is received lies at
-- the start of `storage`, and is not empty but at the end of the stream.
use adl_server.Base.{
  ℕ, ◌+◌, ◌-◌, ◌<◌, Bool, true, false, List, [], ◌∷◌, ◌++◌, map, Bytes, length, take, take_all,
  drop, take-append-drop, length-drop, Result, ok, fault, out_of_bounds, ◌>>=◌, ◌==◌, if◌then◌else◌,
  ◌⊎◌, inl, inr, ◌≡◌, refl, arith,
}

pub data Received : Type 0 where
  got : Bytes → Received
  recv_failed : ℕ → Received

pub data Sent : Type 0 where
  took : ℕ → Sent
  send_failed : ℕ → Sent

-- EPIPE.
abbrev pub epipe : ℕ
epipe = 32

-- Where the sending of a message ends: all of it is sent, the peer is gone, or a call still waits.
pub data Stop : Type 0 where
  all_sent peer_gone waits : Stop

-- What the peer was sent, where the sending ended, and the results that are left.
abbrev pub Outcome : Type 0
Outcome = Bytes × Stop × List Sent

abbrev pub behind : Bytes → Outcome → Outcome
behind bs (sent, stop, outs) = (bs ++ sent, stop, outs)

-- From the label SendData on, with `rsz` bytes at `from` in `storage`: the next bytes lie at `ssz` in
-- `storage`. A result of -1 that is not EPIPE leaves a pointer in front of `storage`.
unfoldable pub send_data : Bytes → ℕ → ℕ → List Sent → Result Outcome
send_data storage from rsz [] = ok ([], waits, [])
send_data storage from rsz (send_failed errno ∷ outs) =
    if errno == epipe then ok ([], peer_gone, outs) else fault out_of_bounds
send_data storage from rsz (took ssz ∷ outs) =
    let piece = take ssz (drop from storage) in
    let rest = send_data storage ssz (rsz - ssz) outs in
    if ssz == rsz then ok (piece, all_sent, outs) else (do r ← rest; ok (behind piece r))

unfoldable pub send_message : Bytes → List Sent → Result Outcome
send_message bs outs = send_data bs 0 (length bs) outs

abbrev pub is_all : Stop → Bool
is_all all_sent = true
is_all _ = false

-- From the label RecvData on: what the peer was sent. A recv that fails leaves a length of 2^64 - 1.
unfoldable pub echo : List Received → List Sent → Result Bytes
echo [] outs = ok []
echo (got [] ∷ ins) outs = ok []
echo (recv_failed errno ∷ ins) outs = fault out_of_bounds
echo (got (b ∷ bs) ∷ ins) outs = do
  (sent, stop, left) ← send_message (b ∷ bs) outs
  let rest = echo ins left
  if is_all stop then (do more ← rest; ok (sent ++ more)) else ok sent

abbrev pub joined : List Bytes → Bytes
joined [] = []
joined (m ∷ ms) = m ++ joined ms

-- Each message, none of which is empty, is taken by one call of send, or by two.
abbrev pub AreTaken : List Bytes → List Sent → Type 0
AreTaken [] outs = Unit {0}
AreTaken (m ∷ ms) outs =
    (rest : List Sent) × AreTaken ms rest
    × (0 < length m)
    × ((outs ≡ took (length m) ∷ rest)
        ⊎ ((a : ℕ) × (a < length m) × (outs ≡ took a ∷ took (length m - a) ∷ rest)))

-- All bytes from an offset on.
rest_taken : (a : ℕ) (m : Bytes) → take (length m - a) (drop a m) ≡ drop a m
rest_taken a m = take_all (length m - a) (drop a m) (omega (arith, length-drop a m))

one_send :
    (m : Bytes) (outs : List Sent)
    → send_message m (took (length m) ∷ outs) ≡ ok (m, all_sent, outs)
unfolding send_message send_data
one_send m outs =
    let whole : (length m == length m) ≡ true = ground arith in
    rw (whole, take_all (length m) m (omega arith)) refl

two_sends :
    (m : Bytes) (a : ℕ) (outs : List Sent)
    → a < length m
    → send_message m (took a ∷ took (length m - a) ∷ outs) ≡ ok (m, all_sent, outs)
unfolding send_message send_data
two_sends m a outs part =
    let short : (a == length m) ≡ false = ground (arith, part) in
    let whole : (length m - a == length m - a) ≡ true = ground arith in
    rw (short, whole, rest_taken a m, take-append-drop a m) refl

message_sent :
    (m : Bytes) (ms : List Bytes) (outs : List Sent)
    → (t : AreTaken (m ∷ ms) outs) → send_message m outs ≡ ok (m, all_sent, t.0)
message_sent m ms outs (rest, more, some_byte, inl e) = rw e (one_send m rest)
message_sent m ms outs (rest, more, some_byte, inr (a, part, e)) = rw e (two_sends m a rest part)

-- A message that needs three calls is not echoed: behind the first `a` bytes and the next `b` the third
-- call sends those from offset `b` on, and not those from `a + b` on.
third_send :
    (m : Bytes) (a b c : ℕ) (outs : List Sent)
    → a + b + c ≡ length m
    → 0 < b
    → 0 < c
    → send_message m (took a ∷ took b ∷ took c ∷ outs)
      ≡ ok (take a m ++ (take b (drop a m) ++ take c (drop b m)), all_sent, outs)
unfolding send_message send_data
third_send m a b c outs all some_b some_c =
    let first : (a == length m) ≡ false = ground (arith, all, some_c) in
    let second : (b == length m - a) ≡ false = ground (arith, all, some_c) in
    let third : (c == length m - a - b) ≡ true = ground (arith, all) in
    rw (first, second, third) refl

-- Where no message is empty and each is taken by one call of send or by two: the peer is sent just the
-- bytes that were received, in order.
pub echo_lem :
    (ms : List Bytes) (outs : List Sent)
    → AreTaken ms outs
    → echo (map got ms) outs ≡ ok (joined ms)
unfolding echo
echo_lem [] outs t = refl
echo_lem ([] ∷ ms) outs t = absurd (omega (arith, t.2))
echo_lem ((b ∷ bs) ∷ ms) outs t =
    let e = message_sent (b ∷ bs) ms outs t in let f = echo_lem ms t.0 t.1 in rw (e, f) refl
