-- ===== src/Epoller/Watched.antt =====
-- What epoll watches after the calls that the channels make, against the documented rules of
-- epoll_ctl: EPOLL_CTL_ADD fails on a descriptor that is watched, the others on one that is not.
use adl_server.Base.{
  ℕ, true, false, List, [], ◌∷◌, ◌==◌, Bool-cases, if◌then◌else◌, ◌≡◌, ◌≢◌, refl, sym, ◌∙◌, inl,
  inr, Option, none, some, arith,
}
use adl_server.Channel.{Events, Status, Channel, init, listen, deleted, not_listen, no_event}
use adl_server.Epoller.{
  Request, ctl_add, ctl_mod, ctl_del, Epoller, Channels, put, Operation, operate, with_events,
  update_channel, update_by, remove_channel, remove_by, send, enable_reading, disable_reading,
  enable_writing, disable_writing, disable_all, remove, run,
}

-- What is watched for a descriptor after the requests, the newest first.
unfoldable pub watched : List Request → ℕ → Option Events
watched [] fd = none
watched (ctl_add f ev ∷ l) fd = if fd == f then some ev else watched l fd
watched (ctl_mod f ev ∷ l) fd = if fd == f then some ev else watched l fd
watched (ctl_del f ev ∷ l) fd = if fd == f then none else watched l fd

-- Each request is one that epoll_ctl accepts where it is made.
abbrev pub IsLegal : List Request → Type 0
IsLegal [] = Unit
IsLegal (ctl_add f ev ∷ l) = (watched l f ≡ none) × IsLegal l
IsLegal (ctl_mod f ev ∷ l) = (watched l f ≢ none) × IsLegal l
IsLegal (ctl_del f ev ∷ l) = (watched l f ≢ none) × IsLegal l

-- What a channel wants: its events while it is in the state LISTEN.
unfoldable pub wanted_by : Status → Events → Option Events
wanted_by listen ev = some ev
wanted_by _ ev = none

abbrev pub wanted : Channel → Option Events
wanted c = wanted_by c.status c.events

-- What one operation on a channel does: the requests stay legal, what is watched for the channel is
-- what it wants, and nothing else is watched or forgotten.
pub record Kept (c : Channel) (e : Epoller) (d : Channel) (f : Epoller) : Type 0 where
  pub legal : IsLegal f.requests
  pub same_fd : d.fd ≡ c.fd
  pub wants : watched f.requests c.fd ≡ wanted d
  pub others : (k : ℕ) → (k == c.fd) ≡ false → watched f.requests k ≡ watched e.requests k

==-refl : (a : ℕ) → (a == a) ≡ true
==-refl a = ground arith

some-none : (ev : Events) → some ev ≢ none
some-none ev h = cc

module _ (c : Channel) (e : Epoller) (l : IsLegal e.requests) where
  add-Kept :
      (m : ℕ → Option ℕ)
      → watched e.requests c.fd ≡ none
      → Kept c e
          (record c { status = listen })
          (record e { channels = m; requests = ctl_add c.fd c.events ∷ e.requests })
  unfolding watched wanted_by
  add-Kept m w = record {
    legal = (w, l);
    same_fd = refl;
    wants = rw (==-refl c.fd);
    others = λ k h. rw h;
  }

  mod-Kept :
      (old : Events)
      → watched e.requests c.fd ≡ some old
      → c.status ≡ listen
      → Kept c e c (send (ctl_mod c.fd c.events) e)
  unfolding watched wanted_by
  mod-Kept old w s = record {
    legal = (λ h. some-none old (sym w ∙ h), l);
    same_fd = refl;
    wants = rw (==-refl c.fd, s);
    others = λ k h. rw h;
  }

  del-Kept :
      (old : Events) (s : Status)
      → watched e.requests c.fd ≡ some old
      → wanted_by s c.events ≡ none
      → (m : ℕ → Option ℕ)
      → Kept c e
          (record c { status = s })
          (record e { channels = m; requests = ctl_del c.fd c.events ∷ e.requests })
  unfolding watched
  del-Kept old s w n m = record {
    legal = (λ h. some-none old (sym w ∙ h), l);
    same_fd = refl;
    wants = rw (==-refl c.fd) (sym n);
    others = λ k h. rw h;
  }

  same-Kept :
      (s : Status)
      → watched e.requests c.fd ≡ none
      → wanted_by s c.events ≡ none
      → (m : ℕ → Option ℕ) → Kept c e (record c { status = s }) (record e { channels = m })
  same-Kept s w n m = record { legal = l; same_fd = refl; wants = w ∙ sym n; others = λ k h. refl }

  idle-Kept : c.status ≡ not_listen → watched e.requests c.fd ≡ none → Kept c e c e
  unfolding wanted_by
  idle-Kept s w = record { legal = l; same_fd = refl; wants = rw s w; others = λ k h. refl }

  update_by-Kept :
      (old : Events) (s : Status)
      → c.status ≡ s
      → watched e.requests c.fd ≡ wanted_by s old
      → Kept c e (update_by s c e).0 (update_by s c e).1
  unfolding update_by wanted_by
  update_by-Kept old init h w = add-Kept _ w
  update_by-Kept old deleted h w = add-Kept _ w
  update_by-Kept old listen h w = elim (Bool-cases (no_event c.events)) [
    | inl y ↦ rw y (del-Kept old not_listen w refl e.channels)
    | inr n ↦ rw n (mod-Kept old w h)
  ]
  update_by-Kept old not_listen h w = elim (Bool-cases (no_event c.events)) [
    | inl y ↦ rw y (idle-Kept h w)
    | inr n ↦ rw n (add-Kept e.channels w)
  ]

  remove_by-Kept :
      (s : Status) (m : ℕ → Option ℕ)
      → watched e.requests c.fd ≡ wanted_by s c.events
      → Kept c e (record c { status = deleted }) (remove_by s c (record e { channels = m }))
  unfolding remove_by wanted_by
  remove_by-Kept init m w = same-Kept deleted w refl m
  remove_by-Kept deleted m w = same-Kept deleted w refl m
  remove_by-Kept not_listen m w = same-Kept deleted w refl m
  remove_by-Kept listen m w = del-Kept c.events deleted w refl m

with_events-Kept :
    (ev : Events) (c : Channel) (e : Epoller)
    → IsLegal e.requests
    → watched e.requests c.fd ≡ wanted c
    → Kept c e (with_events ev c e).0 (with_events ev c e).1
unfolding with_events update_channel
with_events-Kept ev c e l w =
    let k = update_by-Kept (record c { events = ev }) e l c.events c.status refl w in
    record { legal = k.legal; same_fd = k.same_fd; wants = k.wants; others = k.others }

operate-Kept :
    (op : Operation) (c : Channel) (e : Epoller)
    → IsLegal e.requests
    → watched e.requests c.fd ≡ wanted c
    → Kept c e (operate op c e).0 (operate op c e).1
unfolding operate remove_channel
operate-Kept enable_reading c e = with_events-Kept _ c e
operate-Kept disable_reading c e = with_events-Kept _ c e
operate-Kept enable_writing c e = with_events-Kept _ c e
operate-Kept disable_writing c e = with_events-Kept _ c e
operate-Kept disable_all c e = with_events-Kept _ c e
operate-Kept remove c e = λ l w. remove_by-Kept c e l c.status _ w

-- The requests are legal, and what is watched for each channel is what it wants.
pub record Watches (cs : Channels) (e : Epoller) : Type 0 where
  pub legal : IsLegal e.requests
  pub wants : (a : ℕ) → watched e.requests (cs a).fd ≡ wanted (cs a)

-- No two channels of the loop share a descriptor.
abbrev pub Distinct : Channels → Type 0
Distinct cs = (a b : ℕ) → (a == b) ≡ false → ((cs a).fd == (cs b).fd) ≡ false

put-fd :
    (a : ℕ) (d : Channel) (cs : Channels)
    → d.fd ≡ (cs a).fd
    → (k : ℕ) → (put a d cs k).fd ≡ (cs k).fd
unfolding put
put-fd a d cs h k = elim (Bool-cases (k == a)) [
  | inl y ↦ let e : k ≡ a = ground (arith, y) in rw (y, e) h
  | inr n ↦ rw n
]

put-Watches :
    (a : ℕ) (cs : Channels) (e : Epoller) (d : Channel) (f : Epoller)
    → Distinct cs
    → Watches cs e
    → Kept (cs a) e d f
    → Watches (put a d cs) f
unfolding put
put-Watches a cs e d f distinct w k = record { legal = k.legal; wants = each }
  where
    each : (b : ℕ) → watched f.requests (put a d cs b).fd ≡ wanted (put a d cs b)
    each b = elim (Bool-cases (b == a)) [
      | inl y ↦ rw (y, k.same_fd) k.wants
      | inr n ↦ rw n (k.others (cs b).fd (distinct b a n) ∙ w.wants b)
    ]

-- Whatever the channels of a loop do in whatever order, each call of epoll_ctl is one that its rules
-- accept, and afterwards epoll watches a channel where its status is LISTEN, with exactly the events
-- in its mask, and no channel else. The channels have distinct descriptors, and this holds at the
-- start, as it does for new channels.
pub run-Watches :
    (ops : List (ℕ × Operation)) (cs : Channels) (e : Epoller)
    → Distinct cs
    → Watches cs e
    → Watches (run ops cs e).0 (run ops cs e).1
unfolding run
run-Watches [] cs e distinct w = w
run-Watches ((a, op) ∷ ops) cs e distinct w =
    let k = operate-Kept op (cs a) e w.legal (w.wants a) in
    let fds = put-fd a (operate op (cs a) e).0 cs k.same_fd in
    run-Watches ops (put a (operate op (cs a) e).0 cs) (operate op (cs a) e).1
      (λ x y h. rw (fds x, fds y) (distinct x y h)) (put-Watches a cs e _ _ distinct w k)
