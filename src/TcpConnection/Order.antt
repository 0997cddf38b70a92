-- ===== src/TcpConnection/Order.antt =====
-- The output of a connection: what is sent, written on demand and shut down, in whatever order.
pub mod Steps
pub mod Fifo
pub mod Progress
use adl_server.Base.{
  ℕ, suc, ◌+◌, ◌*◌, ◌≤◌, ◌<◌, Bool, true, false, not, List, [], ◌∷◌, ◌++◌, Bytes, length, take,
  drop, ◌==◌, if◌then◌else◌, ◌≡◌, Result, ok, ◌>>=◌,
}
use adl_server.NetBuffer.{readable, contents}
use adl_server.NetBuffer.Invariant.{IsValid}
use adl_server.Channel.{is_writing}
use adl_server.TcpConnection.{
  Connection, WriteOutcome, wrote, would_block, broken, other_error, is_connected, send,
  handle_write, shutdown,
}

-- What happens on the sending side: a call of `send`, a writable socket, a call of `shutdown`.
pub data Action : Type 0 where
  sends : Bytes → WriteOutcome → Action
  writable : WriteOutcome → Action
  shuts : Action

unfoldable pub act : Action → Connection → Result Connection
act (sends msg o) c = send o msg c
act (writable o) c = handle_write o c
act shuts c = ok (shutdown c)

unfoldable pub act_all : List Action → Connection → Result Connection
act_all [] c = ok c
act_all (a ∷ rest) c = do d ← act a c; act_all rest d

-- The messages that are sent before the first shutdown.
unfoldable pub offered : Bool → List Action → Bytes
offered opened [] = []
offered true (sends msg o ∷ rest) = msg ++ offered true rest
offered false (sends msg o ∷ rest) = offered false rest
offered opened (writable o ∷ rest) = offered opened rest
offered opened (shuts ∷ rest) = offered false rest

-- The system writes no more than it was given, and the peer has not closed its end.
abbrev pub FitsIn : ℕ → WriteOutcome → Type 0
FitsIn n (wrote k) = k ≤ n
FitsIn n broken = ⊥
FitsIn n _ = Unit

abbrev pub Fits : Connection → Action → Type 0
Fits c (sends msg o) = FitsIn (length msg) o
Fits c (writable o) = FitsIn (readable c.output) o
Fits c shuts = Unit

abbrev pub Serves : Connection → List Action → Type 0
Serves c [] = Unit
Serves c (a ∷ rest) = Fits c a × ((d : Connection) → act a c ≡ ok d → Serves d rest)

-- The channel asks for EPOLLOUT just while bytes are pending, and the write half is shut down only
-- when nothing is pending and nothing more can be sent.
pub record IsSettled (c : Connection) : Type 0 where
  pub valid : IsValid c.output
  pub asks : is_writing c.channel ≡ not (readable c.output == 0)
  pub shut : c.is_shut ≡ true → (is_connected c.state ≡ false) × (readable c.output ≡ 0)

-- A step that adds `extra` behind all that was sent before.
pub record Step (c d : Connection) (extra : Bytes) : Type 0 where
  pub settled : IsSettled d
  pub flow : d.wire ++ contents d.output ≡ (c.wire ++ contents c.output) ++ extra
  pub bound : readable d.output ≤ readable c.output + length extra
