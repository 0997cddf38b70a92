-- ===== src/TcpConnection/Examples.antt =====
-- Runs of a connection on concrete bytes, and the theorems about it at such a connection.
use adl_server.Base.{
  ℕ, suc, true, false, List, [], ◌∷◌, ◌++◌, codes, Memory, slice, ◌≡◌, refl, Option, Result, ok,
  fault, assert_failed, ℤ, pos, arith,
}
use adl_server.NetBuffer.{NetBuffer, contents, readable}
use adl_server.NetBuffer.Invariant.{IsValid}
use adl_server.NetBuffer.ReadFd.{ReadOutcome, received, failed, ending}
use adl_server.Channel.{
  Ready, set_writing, none_event, new_channel, nothing_ready, is_writing, handle_event,
}
use adl_server.Epoller.{new_epoller}
use adl_server.TcpConnection.{
  Connection, connected, disconnecting, is_disconnecting, wrote, would_block, callbacks,
  handle_read, is_positive,
}
use adl_server.TcpConnection.Order.{Action, sends, shuts, act_all, offered, IsSettled, Step}
use adl_server.TcpConnection.Order.Fifo.{act_all_lem}
use adl_server.TcpConnection.Order.Progress.{write_while_asked, write_while_asked-drains}
use adl_server.TcpConnection.Reading.{IsClosed, handle_read_lem, hangup_aborts}
use adl_server.TcpConnection.File.{send_file, taken, send_file_lem}

abbrev blank : Memory
blank i = 0

abbrev room : NetBuffer
room = record { cells = blank; r = 0; w = 0; alloc = 16 }

abbrev pub fresh : Connection
fresh = record {
  state = connected;
  reading = true;
  channel = new_channel 1 7;
  epoller = new_epoller;
  input = room;
  output = room;
  has_write_complete = true;
  wire = [];
  is_shut = false;
  notices = [];
  closed_files = [];
}

room-IsValid : IsValid room
room-IsValid = omega arith

pub fresh-IsSettled : IsSettled fresh
unfolding is_writing
fresh-IsSettled = record { valid = room-IsValid; asks = refl; shut = λ h. absurd (cc) }

-- One byte is taken at once, the others wait in the buffer while the connection is shut down.
abbrev talk : List Action
talk = sends (codes "abc") (wrote 1) ∷ shuts ∷ []

act_all_lem_example : (d : Connection) × (act_all talk fresh ≡ ok d) × Step fresh d (codes "abc")
unfolding offered
act_all_lem_example =
    act_all_lem talk fresh fresh-IsSettled (omega arith, λ d e. (tt, λ d' e'. tt)) (omega arith)

abbrev arrivals : List ReadOutcome
arrivals = received (codes "GET") ∷ received [] ∷ []

ignore : Connection → Result Connection
ignore c = ok c

handle_read_lem_example :
    (buf : NetBuffer) × IsValid buf
    × (contents buf ≡ codes "GET")
    × ((n : ℕ) (err : Option ℕ)
        → ending 0 arrivals ≡ (pos (suc n), err, false)
        → handle_read ignore arrivals fresh ≡ ignore (record fresh { input = buf }))
    × ((z : ℤ) (err : Option ℕ)
        → ending 0 arrivals ≡ (z, err, true)
        → (d : Connection) × (handle_read ignore arrivals fresh ≡ ok d)
          × IsClosed d
          × (d.input ≡ buf))
    × ((z : ℤ) (err : Option ℕ)
        → ending 0 arrivals ≡ (z, err, false)
        → is_positive z ≡ false
        → handle_read ignore arrivals fresh ≡ ok (record fresh { input = buf }))
unfolding contents slice
handle_read_lem_example =
    handle_read_lem ignore arrivals fresh refl room-IsValid (omega arith, λ c e. tt) (omega arith)

abbrev hangup : Ready
hangup = record nothing_ready { hup = true; rdhup = true }

hangup_aborts_example :
    handle_event (callbacks ignore (received [] ∷ []) would_block) hangup fresh
    ≡ fault assert_failed
hangup_aborts_example =
    hangup_aborts ignore (received [] ∷ []) would_block hangup fresh refl refl refl refl
      room-IsValid tt (omega arith) refl

-- Six bytes of which `sendfile` takes two.
send_file_lem_example :
    (d : Connection) × (send_file 9 (codes "<html>") (wrote 2) (failed 9 ∷ []) fresh ≡ ok d)
    × (d.wire ++ contents d.output
        ≡ (fresh.wire ++ contents fresh.output) ++ taken fresh (codes "<html>") (wrote 2))
send_file_lem_example = send_file_lem 9 (codes "<html>") (wrote 2) 9 [] fresh refl

-- Three bytes are pending in a connection that is being shut down, and go out one by one.
abbrev closing : Connection
closing = record fresh {
  state = disconnecting;
  channel = record (new_channel 1 7) { events = set_writing true none_event };
  output = record { cells = blank; r = 0; w = 3; alloc = 16 };
}

closing-IsSettled : IsSettled closing
unfolding is_writing
closing-IsSettled = record { valid = omega arith; asks = refl; shut = λ h. absurd (cc) }

write_while_asked-drains_example :
    (d : Connection) × (write_while_asked (λ i r. 1) 4 0 closing ≡ ok d)
    × (d.wire ≡ closing.wire ++ contents closing.output)
    × (readable d.output ≡ 0)
    × (is_writing d.channel ≡ false)
    × (is_disconnecting closing.state ≡ true → d.is_shut ≡ true)
unfolding is_writing
write_while_asked-drains_example =
    write_while_asked-drains (λ i r. 1) (λ i r h. (omega arith, omega (arith, h))) 4 0 closing
      closing-IsSettled refl (omega arith)
