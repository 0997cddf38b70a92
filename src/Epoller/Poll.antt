-- ===== src/Epoller/Poll.antt =====
-- `poll` of src/net/Epoller.cpp: the active channels and what each of them is told.
use adl_server.Base.{
  ℕ, ◌≤◌, ◌<◌, true, false, List, [], ◌∷◌, ◌++◌, length, ◌==◌, le→leb, Bool-cases, ◌≡◌, refl, ap,
  ◌∙◌, inl, inr, some, ok, arith,
}
use adl_server.Channel.{Ready, Channel}
use adl_server.Epoller.{
  Epoller, Channels, Event, put, set_revents, addresses, fill_active, grow_events, poll,
}

-- No entry is for this channel.
abbrev pub Absent : ℕ → List Event → Type 0
Absent a [] = Unit
Absent a ((b, r) ∷ evs) = ((a == b) ≡ false) × Absent a evs

set_revents-Absent :
    (evs : List Event) (cs : Channels) (a : ℕ) → Absent a evs → set_revents evs cs a ≡ cs a
unfolding set_revents put
set_revents-Absent [] cs a h = refl
set_revents-Absent ((b, r) ∷ evs) cs a (n, h) =
    set_revents-Absent evs (put b (record (cs b) { revents = r }) cs) a h ∙ (unfold put in rw n)

set_revents_told :
    (before : List Event) (a : ℕ) (r : Ready) (after : List Event) (cs : Channels)
    → Absent a after
    → (set_revents (before ++ ((a, r) ∷ after)) cs a).revents ≡ r
unfolding set_revents put
set_revents_told [] a r after cs h =
    let same : (a == a) ≡ true = ground arith in
    ap (λ (c : Channel). c.revents)
      (set_revents-Absent after (put a (record (cs a) { revents = r }) cs) a h)
    ∙ (unfold put in rw same)
set_revents_told ((b, q) ∷ before) a r after cs h = set_revents_told before a r after _ h

-- A poll that returns what epoll_wait filled in.
pub record Polled (evs : List Event) (active : List ℕ) (cs : Channels) (e : Epoller) (now : List ℕ)
    (ds : Channels) (f : Epoller) : Type 0 where
  pub actives : now ≡ active ++ addresses evs
  pub room : length evs < f.size
  pub requests_same : f.requests ≡ e.requests
  pub told :
      (before : List Event) (a : ℕ) (r : Ready) (after : List Event)
      → evs ≡ before ++ ((a, r) ∷ after)
      → Absent a after
      → (ds a).revents ≡ r
  pub others : (a : ℕ) → Absent a evs → ds a ≡ cs a

grow_events_room :
    (n : ℕ) (e : Epoller)
    → n ≤ e.size
    → 0 < e.size
    → (n < (grow_events n e).size) × ((grow_events n e).requests ≡ e.requests)
unfolding grow_events
grow_events_room n e h p = elim (Bool-cases (n == e.size)) [
  | inl y ↦ rw y (ground (arith, y), refl)
  | inr m ↦ rw m (ground (arith, m), refl)
]

-- When epoll_wait fills in some entries, no more than it was given room for, `poll` does not abort:
-- the channels are appended to the active ones in the order of the entries, each is told the events
-- of its last entry, no other channel changes, no request is made, and the room for the next call is
-- larger than what was filled in now.
pub poll_total :
    (ev : Event) (evs : List Event) (active : List ℕ) (cs : Channels) (e : Epoller)
    → length (ev ∷ evs) ≤ e.size
    → (now : List ℕ) × (ds : Channels) × (f : Epoller) × (poll (some (ev ∷ evs)) active cs e
        ≡ ok (now, ds, f))
      × Polled (ev ∷ evs) active cs e now ds f
unfolding poll fill_active
poll_total ev evs active cs e h =
    let fits = le→leb (length (ev ∷ evs)) e.size h in
    let grown = grow_events_room (length (ev ∷ evs)) e h (omega arith) in
    (
      active ++ addresses (ev ∷ evs),
      set_revents (ev ∷ evs) cs,
      grow_events (length (ev ∷ evs)) e,
      rw fits,
      record {
        actives = refl;
        room = grown.0;
        requests_same = grown.1;
        told = λ before a r after s n.
            ap (λ (l : List Event). (set_revents l cs a).revents) s
            ∙ set_revents_told before a r after cs n;
        others = λ a n. set_revents-Absent (ev ∷ evs) cs a n;
      },
    )
