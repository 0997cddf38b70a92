-- ===== src/TcpConnection/File.antt =====
-- `sendFile` of src/net/tcpConnection.cpp: `sendInLoop` in the mode that sends a file (its descriptor is not 0). The file's
-- bytes and the results of `sendfile` and `read` are arguments.
use adl_server.Base.{
  ℕ, ◌-◌, Bool, true, false, not, ◌&&◌, List, [], ◌∷◌, ◌++◌, Bytes, length, take, ◌==◌, Bool-cases,
  if◌then◌else◌, ◌≡◌, refl, sym, ◌∙◌, inl, inr, append-nil, Result, ok, ◌>>=◌, arith,
}
use adl_server.NetBuffer.{NetBuffer, readable, contents}
use adl_server.NetBuffer.ReadFd.{ReadOutcome, failed, FdResult, read_fd, read_loop, logged, request}
use adl_server.Channel.{is_writing}
use adl_server.TcpConnection.{
  Connection, WriteOutcome, wrote, would_block, broken, other_error, is_connected, is_disconnected,
  complete, want_write, can_write,
}
use adl_server.TcpConnection.Order.Fifo.{connected-alive}
use adl_server.TcpConnection.Order.Steps.{complete-Alike, want_write_lem, contents_nil}

-- `sock::close(sendFileFd)`.
abbrev close_file : ℕ → Connection → Connection
close_file fd c = record c { closed_files = fd ∷ c.closed_files }

-- What is left of the file is read into the output buffer, from the offset `nwrote` on; each branch
-- behind `readFd` closes the file.
unfoldable pub file_rest : ℕ → ℕ → List ReadOutcome → Connection → Result Connection
file_rest fd nwrote env c = do
  res ← read_fd c.output nwrote env
  ok (want_write (close_file fd (record c { output = res.buffer })))

-- `sendfile` takes no more than the file has. `remaining` begins as `len`, which is 0 here: only a `sendfile` that returns a count changes it.
unfoldable pub file_through :
    ℕ → Bytes → WriteOutcome → List ReadOutcome → Connection → Result Connection
file_through fd file (wrote n) env c =
    let d = close_file fd (record c { wire = c.wire ++ take n file }) in
    if length file - n == 0 then ok (complete d) else file_rest fd n env d
file_through fd file _ env c = ok c

unfoldable pub send_file_in_loop :
    ℕ → Bytes → WriteOutcome → List ReadOutcome → Connection → Result Connection
send_file_in_loop fd file o env c =
    if is_disconnected c.state
    then ok c
    else if can_write c
    then file_through fd file o env c
    else ok c

unfoldable pub send_file :
    ℕ → Bytes → WriteOutcome → List ReadOutcome → Connection → Result Connection
send_file fd file o env c = if is_connected c.state then send_file_in_loop fd file o env c else ok c

-- What the one call of `sendfile` takes: nothing where the connection has bytes pending.
unfoldable pub taken : Connection → Bytes → WriteOutcome → Bytes
taken c file (wrote n) = if can_write c then take n file else []
taken c file _ = []

read_fd_fails :
    (b : NetBuffer) (offset errno : ℕ) (env : List ReadOutcome)
    → (res : FdResult) × (read_fd b offset (failed errno ∷ env) ≡ ok res) × (res.buffer ≡ b)
unfolding read_fd read_loop logged request
read_fd_fails b offset errno env = (_, refl, refl)

-- The part of a file that `sendfile` did not take is not read back: its descriptor is closed.
file_rest_lem :
    (fd nwrote errno : ℕ) (env : List ReadOutcome) (c : Connection)
    → (d : Connection) × (file_rest fd nwrote (failed errno ∷ env) c ≡ ok d)
      × (d.wire ≡ c.wire)
      × (d.output ≡ c.output)
unfolding file_rest
file_rest_lem fd nwrote errno env c =
    let (res, e, same) = read_fd_fails c.output nwrote errno env in
    let next = close_file fd (record c { output = res.buffer }) in
    let (like, _) = want_write_lem next in (want_write next, rw e, like.wire, like.output ∙ same)

can_write-empty : (c : Connection) → can_write c ≡ true → contents c.output ≡ []
unfolding can_write
can_write-empty c h = contents_nil c.output (go (is_writing c.channel) h)
  where
    go : (b : Bool) → (not b && (readable c.output == 0)) ≡ true → readable c.output ≡ 0
    go true k = cc
    go false k = ground (arith, k)

-- Bytes that the system takes while none are pending go behind the others.
swap_empty :
    (wire part pending : Bytes)
    → pending ≡ []
    → (wire ++ part) ++ pending ≡ (wire ++ pending) ++ part
swap_empty wire part pending h = rw (h, append-nil (wire ++ part), append-nil wire)

Sent : Connection → Result Connection → Bytes → Type 0
Sent c m extra =
    (d : Connection) × (m ≡ ok d)
    × (d.wire ++ contents d.output ≡ (c.wire ++ contents c.output) ++ extra)

file_through-Sent :
    (fd : ℕ) (file : Bytes) (o : WriteOutcome) (errno : ℕ) (env : List ReadOutcome) (c : Connection)
    → can_write c ≡ true
    → Sent c (file_through fd file o (failed errno ∷ env) c) (taken c file o)
unfolding Sent file_through taken
file_through-Sent fd file would_block errno env c y = (c, refl, sym (append-nil _))
file_through-Sent fd file broken errno env c y = (c, refl, sym (append-nil _))
file_through-Sent fd file other_error errno env c y = (c, refl, sym (append-nil _))
file_through-Sent fd file (wrote n) errno env c y =
    let mid = close_file fd (record c { wire = c.wire ++ take n file }) in
    let flow = swap_empty c.wire (take n file) (contents c.output) (can_write-empty c y) in
    elim (Bool-cases (length file - n == 0)) [
      | inl z ↦
          let (like, _) = complete-Alike mid in
          (complete mid, rw z, rw (like.wire, like.output, y) flow)
      | inr m ↦
          let (d, e, wire, out) = file_rest_lem fd n errno env mid in
          (d, rw m e, rw (wire, out, y) flow)
    ]

taken_idle :
    (c : Connection) (file : Bytes) (o : WriteOutcome) → can_write c ≡ false → taken c file o ≡ []
unfolding taken
taken_idle c file (wrote n) h = rw h
taken_idle c file would_block h = refl
taken_idle c file broken h = refl
taken_idle c file other_error h = refl

-- `sendFile` on a connected socket, where a read of the closed descriptor fails: it returns, and what
-- was sent or is pending afterwards is what was before and, behind it, only the bytes that the one
-- call of `sendfile` took. The rest of the file is lost, and all of it where bytes were pending or
-- `sendfile` would have blocked.
pub send_file_lem :
    (fd : ℕ) (file : Bytes) (o : WriteOutcome) (errno : ℕ) (env : List ReadOutcome) (c : Connection)
    → is_connected c.state ≡ true
    → (d : Connection) × (send_file fd file o (failed errno ∷ env) c ≡ ok d)
      × (d.wire ++ contents d.output ≡ (c.wire ++ contents c.output) ++ taken c file o)
unfolding send_file send_file_in_loop Sent
send_file_lem fd file o errno env c up = elim (Bool-cases (can_write c)) [
  | inr n ↦
      rw (up, connected-alive c.state up, n)
        (c, refl, rw (taken_idle c file o n) (sym (append-nil _)))
  | inl y ↦ rw (up, connected-alive c.state up, y) (file_through-Sent fd file o errno env c y)
]
