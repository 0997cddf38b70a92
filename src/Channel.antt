-- ===== src/Channel.antt =====
-- src/net/Channel.h and src/net/Channel.cpp: a descriptor, the events that it asks for, and the
-- handlers of the events that epoll reports. An event mask is a record of its bits.
use adl_server.Base.{ℕ, Bool, true, false, not, ◌&&◌, ◌||◌, Option, none, some, Result, ok, ◌>>=◌}

-- The bits of `events_`: EPOLLIN, EPOLLRDHUP, EPOLLPRI, EPOLLOUT and EPOLLET.
pub record Events : Type 0 where
  pub input : Bool
  pub rdhup : Bool
  pub pri : Bool
  pub output : Bool
  pub edge : Bool

-- The bits of `revents_` that `handleEvent` looks at.
pub record Ready : Type 0 where
  pub input : Bool
  pub rdhup : Bool
  pub pri : Bool
  pub output : Bool
  pub hup : Bool
  pub err : Bool

pub data Status : Type 0 where
  init listen deleted not_listen : Status

-- `address` stands for the pointer to the object.
pub record Channel : Type 0 where
  pub address : ℕ
  pub fd : ℕ
  pub events : Events
  pub revents : Ready
  pub status : Status

-- `kNoneEvent`.
abbrev pub none_event : Events
none_event = record { input = false; rdhup = false; pri = false; output = false; edge = true }

abbrev pub nothing_ready : Ready
nothing_ready = record {
  input = false;
  rdhup = false;
  pri = false;
  output = false;
  hup = false;
  err = false;
}

abbrev pub new_channel : ℕ → ℕ → Channel
new_channel address fd = record {
  address = address;
  fd = fd;
  events = none_event;
  revents = nothing_ready;
  status = init;
}

-- `events_ |= kReadEvent` and the other changes of the mask.
abbrev pub set_reading : Bool → Events → Events
set_reading b e = record e { input = b; rdhup = b; pri = b }

abbrev pub set_writing : Bool → Events → Events
set_writing b e = record e { output = b }

unfoldable pub is_writing : Channel → Bool
is_writing c = c.events.output

unfoldable pub is_reading : Channel → Bool
is_reading c = c.events.input || c.events.rdhup || c.events.pri

-- `events_ == kNoneEvent`.
unfoldable pub no_event : Events → Bool
no_event e = e.edge && not (e.input || e.rdhup || e.pri || e.output)

-- The handlers of a channel, each of which may be unset; they act on the program's state.
pub record Callbacks {ℓ} (S : Type ℓ) : Type ℓ where
  pub on_read : Option (S → Result S)
  pub on_write : Option (S → Result S)
  pub on_close : Option (S → Result S)
  pub on_error : Option (S → Result S)

-- `if (test) if (callback) callback();`
unfoldable pub call_if {ℓ} : {S : Type ℓ} → Bool → Option (S → Result S) → S → Result S
call_if false f s = ok s
call_if true none s = ok s
call_if true (some f) s = f s

unfoldable pub handle_event {ℓ} : {S : Type ℓ} → Callbacks S → Ready → S → Result S
handle_event cb r s = do
  closed ← call_if (r.hup && not r.input) cb.on_close s
  failed ← call_if r.err cb.on_error closed
  did_read ← call_if (r.input || r.pri || r.rdhup) cb.on_read failed
  call_if r.output cb.on_write did_read
