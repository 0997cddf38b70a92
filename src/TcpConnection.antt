-- ===== src/TcpConnection.antt =====
-- src/net/tcpConnection.h and src/net/tcpConnection.cpp: a connection, as its loop's thread runs it.
-- The loop is alive (`getLoop()` is not null), and the result of a system call is an argument.
pub mod Order
pub mod Reading
pub mod File
pub mod Examples
use adl_server.Base.{
  ℕ, zero, suc, ◌+◌, ◌-◌, Bool, true, false, not, ◌&&◌, ◌||◌, List, [], ◌∷◌, ◌++◌, Bytes, length,
  take, drop, ltb, leb, ◌==◌, if◌then◌else◌, Option, none, some, Result, ok, fault, check,
  assert_failed, ◌>>=◌, ◌>>◌, ℤ, pos, negsuc,
}
use adl_server.NetBuffer.{NetBuffer, readable, append, retrieve, contents}
use adl_server.NetBuffer.ReadFd.{ReadOutcome, FdResult, read_fd}
use adl_server.Channel.{Channel, Callbacks, is_writing, is_reading}
use adl_server.Epoller.{
  Epoller, Operation, operate, enable_reading, disable_reading, enable_writing, disable_writing,
  disable_all, remove,
}

-- `StateE`.
pub data State : Type 0 where
  disconnected connecting connected disconnecting : State

-- What a connection hands to others: a functor that it queues in the loop, or a callback that it
-- runs at once (`closed` and `connection`).
pub data Notice : Type 0 where
  write_complete closed connection force_close_task : Notice

-- `wire` holds the bytes that the system took from the connection, `is_shut` whether its write half
-- was shut down, `notices` what it handed over, the newest first, and `closed_files` the
-- descriptors of files that it closed.
pub record Connection : Type 0 where
  pub state : State
  pub reading : Bool
  pub channel : Channel
  pub epoller : Epoller
  pub input : NetBuffer
  pub output : NetBuffer
  pub has_write_complete : Bool
  pub wire : Bytes
  pub is_shut : Bool
  pub notices : List Notice
  pub closed_files : List ℕ

-- The result of `write` or `sendfile`: EPIPE and ECONNRESET are `broken`.
pub data WriteOutcome : Type 0 where
  wrote : ℕ → WriteOutcome
  would_block broken other_error : WriteOutcome

abbrev pub is_connected : State → Bool
is_connected connected = true
is_connected _ = false

abbrev pub is_disconnected : State → Bool
is_disconnected disconnected = true
is_disconnected _ = false

abbrev pub is_disconnecting : State → Bool
is_disconnecting disconnecting = true
is_disconnecting _ = false

-- An operation of the channel.
unfoldable pub watch : Operation → Connection → Connection
watch op c = let (d, e) = operate op c.channel c.epoller in record c { channel = d; epoller = e }

abbrev pub notify : Notice → Connection → Connection
notify n c = record c { notices = n ∷ c.notices }

unfoldable pub complete : Connection → Connection
complete c = if c.has_write_complete then notify write_complete c else c

unfoldable pub want_write : Connection → Connection
want_write c = if is_writing c.channel then c else watch enable_writing c

-- The end of `sendInLoop` for a message: what is left goes to the output buffer.
unfoldable pub buffer_rest : Bytes → Connection → Result Connection
buffer_rest [] c = ok c
buffer_rest (x ∷ xs) c = do
  out ← append c.output (x ∷ xs)
  ok (want_write (record c { output = out }))

unfoldable pub write_through : WriteOutcome → Bytes → Connection → Result Connection
write_through (wrote n) msg c = do
  let d = record c { wire = c.wire ++ take n msg }
  check (leb n (length msg)) assert_failed
  if length msg - n == 0 then ok (complete d) else buffer_rest (drop n msg) d
write_through would_block msg c = buffer_rest msg c
write_through other_error msg c = buffer_rest msg c
write_through broken msg c = ok c

unfoldable pub can_write : Connection → Bool
can_write c = not (is_writing c.channel) && (readable c.output == 0)

-- `sendInLoop(message, len)` with a message.
unfoldable pub send_in_loop : WriteOutcome → Bytes → Connection → Result Connection
send_in_loop o msg c =
    if is_disconnected c.state
    then ok c
    else if can_write c
    then write_through o msg c
    else buffer_rest msg c

-- `send` on the thread of the loop.
unfoldable pub send : WriteOutcome → Bytes → Connection → Result Connection
send o msg c = if is_connected c.state then send_in_loop o msg c else ok c

unfoldable pub shutdown_write_in_loop : Connection → Connection
shutdown_write_in_loop c = if is_writing c.channel then c else record c { is_shut = true }

unfoldable pub shutdown : Connection → Connection
shutdown c =
    if is_connected c.state then shutdown_write_in_loop (record c { state = disconnecting }) else c

-- What `handleWrite` does once the output buffer is empty.
unfoldable pub drained : Connection → Connection
drained c =
    let d = complete (watch disable_writing c) in
    if is_disconnecting d.state then shutdown_write_in_loop d else d

unfoldable pub written : WriteOutcome → Connection → Result Connection
written (wrote (suc n)) c = do
  out ← retrieve c.output (suc n)
  let d = record c { output = out; wire = c.wire ++ take (suc n) (contents c.output) }
  ok (if readable out == 0 then drained d else d)
written _ c = ok c

unfoldable pub handle_write : WriteOutcome → Connection → Result Connection
handle_write o c = if is_writing c.channel then written o c else ok c

unfoldable pub handle_close : Connection → Result Connection
handle_close c = do
  check (is_connected c.state || is_disconnecting c.state) assert_failed
  ok (notify closed (watch disable_all (record c { state = disconnected })))

abbrev pub is_positive : ℤ → Bool
is_positive (pos (suc n)) = true
is_positive _ = false

-- `handleError` only logs. The message callback is an argument.
unfoldable pub handle_read :
    (Connection → Result Connection) → List ReadOutcome → Connection → Result Connection
handle_read on_message env c = do
  res ← read_fd c.input 0 env
  let d = record c { input = res.buffer }
  if res.closed then handle_close d else if is_positive res.ret then on_message d else ok d

unfoldable pub force_close : Connection → Connection
force_close c =
    if is_connected c.state || is_disconnecting c.state
    then notify force_close_task (record c { state = disconnecting })
    else c

unfoldable pub force_close_in_loop : Connection → Result Connection
force_close_in_loop c =
    if is_connected c.state || is_disconnecting c.state then handle_close c else ok c

unfoldable pub start_read_in_loop : Connection → Connection
start_read_in_loop c =
    if not c.reading || not (is_reading c.channel)
    then record (watch enable_reading c) { reading = true }
    else c

unfoldable pub stop_read_in_loop : Connection → Connection
stop_read_in_loop c =
    if c.reading || is_reading c.channel
    then record (watch disable_reading c) { reading = false }
    else c

abbrev pub is_connecting : State → Bool
is_connecting connecting = true
is_connecting _ = false

unfoldable pub connect_established : Connection → Result Connection
connect_established c = do
  check (is_connecting c.state) assert_failed
  ok (notify connection (watch enable_reading (record c { state = connected })))

unfoldable pub connect_destroyed : Connection → Connection
connect_destroyed c =
    let d =
      if is_connected c.state
      then notify connection (watch disable_all (record c { state = disconnected }))
      else c in
    watch remove d

-- The handlers that the constructor sets.
unfoldable pub callbacks :
    (Connection → Result Connection) → List ReadOutcome → WriteOutcome → Callbacks Connection
callbacks on_message env o = record {
  on_read = some (handle_read on_message env);
  on_write = some (handle_write o);
  on_close = some handle_close;
  on_error = some (λ c. ok c);
}
