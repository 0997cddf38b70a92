-- ===== src/EventLoop/Setup.antt =====
-- The event descriptor of a loop from `init` to the destructor: `createEventfd`, and the channel that
-- is registered with the poller. `none` is an eventfd that fails; LOG(FATAL) ends the program.
use adl_server.Base.{
  ℕ, true, false, [], ◌∷◌, Option, none, some, Result, ok, fault, aborted, ◌>>=◌, ◌==◌, ◌≡◌, refl,
  arith,
}
use adl_server.Channel.{Channel, new_channel, none_event, set_reading, no_event}
use adl_server.Epoller.{
  Epoller, new_epoller, ctl_add, ctl_del, enable_reading, disable_all, remove, operate, with_events,
  update_channel, update_by, remove_channel, remove_by, assign, has_channel,
}

unfoldable pub create_eventfd : Option ℕ → Result ℕ
create_eventfd none = fault aborted
create_eventfd (some fd) = ok fd

-- `init`, with the address of the new channel.
unfoldable pub init_loop : ℕ → Option ℕ → Result (Channel × Epoller)
init_loop address eventfd = do
  fd ← create_eventfd eventfd
  ok (operate enable_reading (new_channel address fd) new_epoller)

-- The destructor, with the descriptor that it closes.
unfoldable pub destroy_loop : Channel → Epoller → ℕ × Epoller
destroy_loop c e =
    let (d, f) = operate disable_all c e in let (_, g) = operate remove d f in (c.fd, g)

known-has_channel :
    (e : Epoller) (c : Channel) → e.channels c.fd ≡ some c.address → has_channel e c ≡ true
unfolding has_channel
known-has_channel e c h =
    let same : (c.address == c.address) ≡ true = ground arith in rw (h, same, has_channel) refl

unknown-has_channel : (e : Epoller) (c : Channel) → e.channels c.fd ≡ none → has_channel e c ≡ false
unfolding has_channel
unknown-has_channel e c h = rw (h, has_channel) refl

assigned : (fd : ℕ) (v : Option ℕ) (m : ℕ → Option ℕ) → assign fd v m fd ≡ v
unfolding assign
assigned fd v m = let here : (fd == fd) ≡ true = ground arith in rw here refl

-- The poller knows the channel of a loop that was set up and listens for input on it; a loop that is
-- destroyed at once takes it out of the poller and out of epoll, by one request, before its
-- descriptor is closed.
pub init_destroy :
    (address fd : ℕ)
    → (c : Channel) × (e : Epoller) × (init_loop address (some fd) ≡ ok (c, e))
      × (has_channel e c ≡ true)
      × (e.requests ≡ ctl_add fd (set_reading true none_event) ∷ [])
      × ((destroy_loop c e).0 ≡ fd)
      × (has_channel (destroy_loop c e).1 c ≡ false)
      × ((destroy_loop c e).1.requests
          ≡ ctl_del fd none_event ∷ ctl_add fd (set_reading true none_event) ∷ [])
unfolding init_loop destroy_loop create_eventfd operate with_events update_channel update_by
    remove_channel remove_by no_event
init_destroy address fd = (
  _,
  _,
  refl,
  known-has_channel _ _ (assigned fd (some address) (λ k. none)),
  refl,
  refl,
  unknown-has_channel _ _ (assigned fd none (assign fd (some address) (λ k. none))),
  refl,
)
