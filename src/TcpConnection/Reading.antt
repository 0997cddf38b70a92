-- ===== src/TcpConnection/Reading.antt =====
-- `handleRead` and `handleClose` of src/net/tcpConnection.cpp, and the events that lead to them.
use adl_server.Base.{
  ℕ, suc, ◌+◌, ◌*◌, ◌<◌, Bool, true, false, ◌||◌, List, ◌∷◌, ◌++◌, length, ◌≡◌, refl, ap, ◌∙◌, inl,
  inr, Bool-cases, Option, Result, ok, fault, assert_failed, ℤ, pos,
}
use adl_server.NetBuffer.{NetBuffer, readable, contents, int_limit}
use adl_server.NetBuffer.Invariant.{IsValid}
use adl_server.NetBuffer.ReadFd.{ReadOutcome, delivered, ending, Serves}
use adl_server.NetBuffer.ReadFd.Total.{read_fd_total}
use adl_server.Channel.{Ready, is_writing, is_reading, handle_event, call_if}
use adl_server.Epoller.{disable_all}
use adl_server.TcpConnection.{
  Connection, Notice, closed, disconnected, WriteOutcome, is_connected, is_disconnecting,
  is_positive, watch, notify, handle_close, handle_read, callbacks,
}
use adl_server.TcpConnection.Order.Steps.{watch_none}

-- The connection is up or on its way down: `handleClose` asserts this.
abbrev pub IsUp : Connection → Type 0
IsUp c = (is_connected c.state || is_disconnecting c.state) ≡ true

-- A connection that `handleClose` left, with nothing that it waits for.
pub record IsClosed (d : Connection) : Type 0 where
  pub state : d.state ≡ disconnected
  pub no_write : is_writing d.channel ≡ false
  pub no_read : is_reading d.channel ≡ false
  pub told : (rest : List Notice) × (d.notices ≡ closed ∷ rest)

pub handle_close_lem :
    (c : Connection)
    → IsUp c
    → (d : Connection) × (handle_close c ≡ ok d) × IsClosed d × (d.input ≡ c.input)
unfolding handle_close watch
handle_close_lem c up =
    let (w, r) = watch_none (record c { state = disconnected }) in
    (
      notify closed (watch disable_all (record c { state = disconnected })),
      rw up,
      record { state = refl; no_write = w; no_read = r; told = (c.notices, refl) },
      refl,
    )

-- `handleRead` on a connection that is up, with whatever system calls keep to their counts, and with
-- less than 2^30 bytes in the input buffer: bytes without the end of the stream go to the message
-- callback, behind those that were there; at the end of the stream the connection is closed, and the
-- callback is not run, also where bytes came before it; on an error, and where nothing was there, the
-- bytes stay in the buffer and nothing else happens.
pub handle_read_lem :
    (on_message : Connection → Result Connection) (env : List ReadOutcome) (c : Connection)
    → IsUp c
    → IsValid c.input
    → Serves c.input env
    → 2 * (readable c.input + length (delivered env) + 4096) < int_limit
    → (buf : NetBuffer) × IsValid buf
      × (contents buf ≡ contents c.input ++ delivered env)
      × ((n : ℕ) (err : Option ℕ)
          → ending 0 env ≡ (pos (suc n), err, false)
          → handle_read on_message env c ≡ on_message (record c { input = buf }))
      × ((z : ℤ) (err : Option ℕ)
          → ending 0 env ≡ (z, err, true)
          → (d : Connection) × (handle_read on_message env c ≡ ok d) × IsClosed d × (d.input ≡ buf))
      × ((z : ℤ) (err : Option ℕ)
          → ending 0 env ≡ (z, err, false)
          → is_positive z ≡ false
          → handle_read on_message env c ≡ ok (record c { input = buf }))
unfolding handle_read
handle_read_lem on_message env c up v serves small =
    let (res, e, reads) = read_fd_total c.input 0 env v serves small in
    (
      res.buffer,
      reads.valid,
      reads.extended,
      λ n err h.
          let t = reads.reported ∙ h in
          let flag : res.closed ≡ false = ap (λ (x : ℤ × Option ℕ × Bool). x.2) t in
          let ret : res.ret ≡ pos (suc n) = ap (λ (x : ℤ × Option ℕ × Bool). x.0) t in
          rw (e, flag, ret),
      λ z err h.
          let flag : res.closed ≡ true =
            ap (λ (x : ℤ × Option ℕ × Bool). x.2) (reads.reported ∙ h) in
          rw (e, flag) (handle_close_lem (record c { input = res.buffer }) up),
      λ z err h p.
          let t = reads.reported ∙ h in
          let flag : res.closed ≡ false = ap (λ (x : ℤ × Option ℕ × Bool). x.2) t in
          let ret : res.ret ≡ z = ap (λ (x : ℤ × Option ℕ × Bool). x.0) t in rw (e, flag, ret, p),
    )

-- A second `handleClose` aborts.
read_closed :
    (on_message : Connection → Result Connection) (env : List ReadOutcome) (d : Connection) {z : ℤ}
    {err : Option ℕ}
    → d.state ≡ disconnected
    → IsValid d.input
    → Serves d.input env
    → 2 * (readable d.input + length (delivered env) + 4096) < int_limit
    → ending 0 env ≡ (z, err, true)
    → handle_read on_message env d ≡ fault assert_failed
unfolding handle_read handle_close
read_closed on_message env d shut v serves small end =
    let (res, e, reads) = read_fd_total d.input 0 env v serves small in
    let flag : res.closed ≡ true = ap (λ (x : ℤ × Option ℕ × Bool). x.2) (reads.reported ∙ end) in
    rw (e, flag, shut)

-- A connection that is up is told of a hangup without EPOLLIN, together with EPOLLRDHUP or EPOLLPRI,
-- and the read that follows finds the end of the stream: the close handler and the read handler both
-- close the connection, and the assertion of the second `handleClose` aborts the program.
pub hangup_aborts :
    (on_message : Connection → Result Connection) (env : List ReadOutcome) (o : WriteOutcome)
    (r : Ready) (c : Connection) {z : ℤ} {err : Option ℕ}
    → r.hup ≡ true
    → r.input ≡ false
    → (r.pri || r.rdhup) ≡ true
    → IsUp c
    → IsValid c.input
    → Serves c.input env
    → 2 * (readable c.input + length (delivered env) + 4096) < int_limit
    → ending 0 env ≡ (z, err, true)
    → handle_event (callbacks on_message env o) r c ≡ fault assert_failed
unfolding handle_event callbacks call_if
hangup_aborts on_message env o r c {z = z} {err = err} hup no_input more up v serves small end =
    let (d, e, shut, same) = handle_close_lem c up in
    let stuck =
      read_closed on_message env d {z = z} {err = err} shut.state (rw same v) (rw same serves)
        (rw same small) end in
    elim (Bool-cases r.err) [
      | inl y ↦ rw (hup, no_input, e, y, more, stuck)
      | inr n ↦ rw (hup, no_input, e, n, more, stuck)
    ]
