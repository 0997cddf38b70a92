-- ===== src/Epoller.antt =====
-- src/net/Epoller.h and src/net/Epoller.cpp: the epoll descriptor of a loop. A call of `epoll_ctl` is
-- an entry of the log `requests`, the newest first; its result is only logged by the source.
-- `Channel::update` and `Channel::remove` reach these functions through the loop
-- (src/net/EventLoop.cpp, `updateChannel` and `removeChannel`).
pub mod Watched
pub mod Poll
mod Examples
use adl_server.Base.{
  ℕ, suc, ◌+◌, ◌*◌, Bool, true, false, not, List, [], ◌∷◌, ◌++◌, length, ltb, leb, ◌==◌,
  if◌then◌else◌, Option, none, some, Result, ok, fault, check, assert_failed, ◌>>=◌, ◌>>◌,
}
use adl_server.Channel.{
  Events, Ready, Status, Channel, init, listen, deleted, not_listen, none_event, set_reading,
  set_writing, no_event,
}

-- EPOLL_CTL_ADD, EPOLL_CTL_MOD and EPOLL_CTL_DEL.
pub data Request : Type 0 where
  ctl_add ctl_mod ctl_del : ℕ → Events → Request

-- `channels_` maps a descriptor to the address of its channel; `size` is `events_.size()`.
pub record Epoller : Type 0 where
  pub channels : ℕ → Option ℕ
  pub size : ℕ
  pub requests : List Request

abbrev pub new_epoller : Epoller
new_epoller = record { channels = λ fd. none; size = 16; requests = [] }

-- `channels_[fd] = channel` and `channels_.erase(fd)`.
unfoldable pub assign : ℕ → Option ℕ → (ℕ → Option ℕ) → ℕ → Option ℕ
assign fd v m k = if k == fd then v else m k

-- `update(operation, channel)`.
abbrev pub send : Request → Epoller → Epoller
send q e = record e { requests = q ∷ e.requests }

abbrev pub start_listen : Channel → Epoller → Channel × Epoller
start_listen c e = (record c { status = listen }, send (ctl_add c.fd c.events) e)

unfoldable pub update_by : Status → Channel → Epoller → Channel × Epoller
update_by init c e =
    let (d, f) = start_listen c e in
    (d, record f { channels = assign c.fd (some c.address) f.channels })
update_by deleted c e =
    let (d, f) = start_listen c e in
    (d, record f { channels = assign c.fd (some c.address) f.channels })
update_by listen c e =
    if no_event c.events
    then (record c { status = not_listen }, send (ctl_del c.fd c.events) e)
    else (c, send (ctl_mod c.fd c.events) e)
update_by not_listen c e = if no_event c.events then (c, e) else start_listen c e

unfoldable pub update_channel : Channel → Epoller → Channel × Epoller
update_channel c e = update_by c.status c e

unfoldable pub remove_by : Status → Channel → Epoller → Epoller
remove_by listen c e = send (ctl_del c.fd c.events) e
remove_by _ c e = e

unfoldable pub remove_channel : Channel → Epoller → Channel × Epoller
remove_channel c e = (
  record c { status = deleted },
  remove_by c.status c (record e { channels = assign c.fd none e.channels }),
)

unfoldable pub has_channel : Epoller → Channel → Bool
has_channel e c = elim (e.channels c.fd) [ none ↦ false | some a ↦ a == c.address ]

-- The public operations of a channel.
pub data Operation : Type 0 where
  enable_reading disable_reading enable_writing disable_writing disable_all remove : Operation

unfoldable pub with_events : Events → Channel → Epoller → Channel × Epoller
with_events ev c e = update_channel (record c { events = ev }) e

unfoldable pub operate : Operation → Channel → Epoller → Channel × Epoller
operate enable_reading c = with_events (set_reading true c.events) c
operate disable_reading c = with_events (set_reading false c.events) c
operate enable_writing c = with_events (set_writing true c.events) c
operate disable_writing c = with_events (set_writing false c.events) c
operate disable_all c = with_events none_event c
operate remove c = remove_channel c

-- The channels of a loop by their addresses.
abbrev pub Channels : Type 0
Channels = ℕ → Channel

unfoldable pub put : ℕ → Channel → Channels → Channels
put a c cs k = if k == a then c else cs k

-- The operations of the channels of a loop, one after the other.
unfoldable pub run : List (ℕ × Operation) → Channels → Epoller → Channels × Epoller
run [] cs e = (cs, e)
run ((a, op) ∷ ops) cs e = let (d, f) = operate op (cs a) e in run ops (put a d cs) f

-- An entry of `events_` that epoll_wait filled in: `data.ptr` and `events`.
abbrev pub Event : Type 0
Event = ℕ × Ready

-- `setRevents` for each entry, and the addresses in order.
unfoldable pub set_revents : List Event → Channels → Channels
set_revents [] cs = cs
set_revents ((a, r) ∷ evs) cs = set_revents evs (put a (record (cs a) { revents = r }) cs)

unfoldable pub addresses : List Event → List ℕ
addresses [] = []
addresses ((a, r) ∷ evs) = a ∷ addresses evs

-- `poll`: `none` is an epoll_wait that fails, `some` the entries that it filled in.
unfoldable pub fill_active : ℕ → List Event → List ℕ → Channels → Result (List ℕ × Channels)
fill_active size evs active cs = do
  check (leb (length evs) size) assert_failed
  ok (active ++ addresses evs, set_revents evs cs)

unfoldable pub grow_events : ℕ → Epoller → Epoller
grow_events n e = if n == e.size then record e { size = e.size * 2 } else e

unfoldable pub poll :
    Option (List Event) → List ℕ → Channels → Epoller → Result (List ℕ × Channels × Epoller)
poll none active cs e = ok (active, cs, e)
poll (some []) active cs e = ok (active, cs, e)
poll (some (ev ∷ evs)) active cs e = do
  (now, ds) ← fill_active e.size (ev ∷ evs) active cs
  ok (now, ds, grow_events (length (ev ∷ evs)) e)
