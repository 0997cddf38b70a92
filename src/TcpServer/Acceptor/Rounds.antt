-- ===== src/TcpServer/Acceptor/Rounds.antt =====
-- What the acceptor makes of the connections that wait for it.
use adl_server.Base.{
  ℕ, zero, suc, ◌<◌, length, true, List, [], ◌∷◌, ◌++◌, append-nil, append_assoc, ok, ◌≡◌, refl,
  sym, ap, ◌∙◌, arith, ℤ, Bytes,
}
use adl_server.TcpServer.Acceptor.{
  eagain, econnaborted, eintr, eproto, eperm, emfile, Attempt, connection, failure, Acceptor, again,
  stop, is_valid_fd, fd_of, accept, is_expected, hand_over, close_fd, refuse_one, after_failure,
  after_accept, accept_round, accept_loop,
}

-- What happens before the queue is empty: a connection comes, an attempt fails for now, or there is
-- no descriptor left, and the second attempt gives what it gives.
pub data Event : Type 0 where
  arrives : ℕ → Bytes → Event
  interrupted given_up wrong_protocol forbidden : Event
  full : Attempt → Event

-- The results of `accept4` that are behind it.
abbrev pub attempts_of : Event → List Attempt
attempts_of (arrives fd peer) = connection fd peer ∷ []
attempts_of interrupted = failure eintr ∷ []
attempts_of given_up = failure econnaborted ∷ []
attempts_of wrong_protocol = failure eproto ∷ []
attempts_of forbidden = failure eperm ∷ []
attempts_of (full second) = failure emfile ∷ second ∷ []

abbrev pub all_attempts : List Event → List Attempt
all_attempts [] = failure eagain ∷ []
all_attempts (e ∷ es) = attempts_of e ++ all_attempts es

-- The calls from k on give these results.
abbrev pub Gives : (ℕ → Attempt) → ℕ → List Attempt → Type 0
Gives attempt k [] = Unit {0}
Gives attempt k (a ∷ l) = (attempt k ≡ a) × Gives attempt (suc k) l

abbrev pub arrivals : List Event → List (ℕ × Bytes)
arrivals [] = []
arrivals (arrives fd peer ∷ es) = (fd, peer) ∷ arrivals es
arrivals (_ ∷ es) = arrivals es

-- What is closed when no descriptor is left: the idle one, and the connection accepted in its place.
abbrev pub closings : (ℕ → ℤ) → ℤ → ℕ → List Event → List ℤ
closings open_null idle n [] = []
closings open_null idle n (full second ∷ es) =
    idle ∷ fd_of second ∷ closings open_null (open_null n) (suc n) es
closings open_null idle n (_ ∷ es) = closings open_null idle n es

module _ (attempt : ℕ → Attempt) (open_null : ℕ → ℤ)
    (opens : (k : ℕ) → is_valid_fd (open_null k) ≡ true) where
  -- The acceptor after events: what it handed over, what it closed, and an idle descriptor again.
  abbrev pub Accepts : List Event → Acceptor → Acceptor → Type 0
  Accepts es a b =
      (b.handed ≡ a.handed ++ arrivals es)
      × (b.closed ≡ a.closed ++ closings open_null a.idle_fd a.opens es)
      × (is_valid_fd b.idle_fd ≡ true)
      × (b.has_callback ≡ true)

  -- One event, which is one round.
  event_round :
      (e : Event) (rest : List Attempt) (a : Acceptor)
      → a.has_callback ≡ true
      → is_valid_fd a.idle_fd ≡ true
      → Gives attempt a.accepts (attempts_of e ++ rest)
      → (b : Acceptor) × (accept_round attempt open_null a ≡ ok (again, b))
        × Gives attempt b.accepts rest
        × (b.handed ≡ a.handed ++ arrivals (e ∷ []))
        × ((es : List Event)
            → b.closed ++ closings open_null b.idle_fd b.opens es
              ≡ a.closed ++ closings open_null a.idle_fd a.opens (e ∷ es))
        × (is_valid_fd b.idle_fd ≡ true)
        × (b.has_callback ≡ true)
  unfolding accept_round accept is_expected after_accept after_failure hand_over close_fd refuse_one
  event_round (arrives fd peer) rest a call idle (g, gs) = (
    record a { accepts = suc a.accepts; handed = a.handed ++ ((fd, peer) ∷ []) },
    rw (g, call) refl,
    gs,
    refl,
    λ es. refl,
    idle,
    call,
  )
  event_round interrupted rest a call idle (g, gs) = (
    record a { accepts = suc a.accepts },
    rw g refl,
    gs,
    sym (append-nil a.handed),
    λ es. refl,
    idle,
    call,
  )
  event_round given_up rest a call idle (g, gs) = (
    record a { accepts = suc a.accepts },
    rw g refl,
    gs,
    sym (append-nil a.handed),
    λ es. refl,
    idle,
    call,
  )
  event_round wrong_protocol rest a call idle (g, gs) = (
    record a { accepts = suc a.accepts },
    rw g refl,
    gs,
    sym (append-nil a.handed),
    λ es. refl,
    idle,
    call,
  )
  event_round forbidden rest a call idle (g, gs) = (
    record a { accepts = suc a.accepts },
    rw g refl,
    gs,
    sym (append-nil a.handed),
    λ es. refl,
    idle,
    call,
  )
  event_round (full second) rest a call idle (g, (h, gs)) = (
    refuse_one attempt open_null (record a { accepts = suc a.accepts }),
    rw g refl,
    gs,
    sym (append-nil a.handed),
    λ es.
        ap
          (λ (s : Attempt).
            ((a.closed ++ (a.idle_fd ∷ [])) ++ (fd_of s ∷ []))
            ++ closings open_null (open_null a.opens) (suc a.opens) es)
          h
        ∙ append_assoc (a.closed ++ (a.idle_fd ∷ [])) (fd_of second ∷ [])
            (closings open_null (open_null a.opens) (suc a.opens) es)
        ∙ append_assoc a.closed (a.idle_fd ∷ [])
            (fd_of second ∷ closings open_null (open_null a.opens) (suc a.opens) es),
    opens a.opens,
    call,
  )

  -- An attempt on the empty queue.
  empty_round :
      (a : Acceptor)
      → attempt a.accepts ≡ failure eagain
      → accept_round attempt open_null a ≡ ok (stop, record a { accepts = suc a.accepts })
  unfolding accept_round accept is_expected after_accept after_failure
  empty_round a g = rw g refl

  arrivals_cons :
      (e : Event) (es : List Event) → arrivals (e ∷ es) ≡ arrivals (e ∷ []) ++ arrivals es
  arrivals_cons (arrives fd peer) es = refl
  arrivals_cons interrupted es = refl
  arrivals_cons given_up es = refl
  arrivals_cons wrong_protocol es = refl
  arrivals_cons forbidden es = refl
  arrivals_cons (full second) es = refl

  -- The listening socket is readable, and before its queue is empty the events `es` happen. Where
  -- /dev/null can be opened: the loop ends in as many rounds and one, every connection that came is
  -- handed to the callback, in order and no other; each time when no descriptor was left the idle one
  -- and the connection accepted in its place are closed, nothing else is, and there is an idle one
  -- again in the end.
  pub accept_loop-Accepts :
      (es : List Event) (fuel : ℕ) (a : Acceptor)
      → length es < fuel
      → a.has_callback ≡ true
      → is_valid_fd a.idle_fd ≡ true
      → Gives attempt a.accepts (all_attempts es)
      → (b : Acceptor) × (accept_loop attempt open_null fuel a ≡ ok b) × Accepts es a b
  unfolding accept_loop
  accept_loop-Accepts es zero a h _ _ _ = absurd (omega (arith, h))
  accept_loop-Accepts [] (suc fuel) a h call idle (g, _) = (
    record a { accepts = suc a.accepts },
    rw (empty_round a g) refl,
    (sym (append-nil a.handed), sym (append-nil a.closed), idle, call),
  )
  accept_loop-Accepts (e ∷ es) (suc fuel) a h call idle gs =
      let (b, round, more, handed, closed, idle_b, call_b) =
        event_round e (all_attempts es) a call idle gs in
      let (c, done, (handed_c, closed_c, idle_c, call_c)) =
        accept_loop-Accepts es fuel b (omega (arith, h)) call_b idle_b more in
      (
        c,
        rw round done,
        (
          handed_c
              ∙ ap (λ (z : List (ℕ × Bytes)). z ++ arrivals es) handed
              ∙ append_assoc a.handed (arrivals (e ∷ [])) (arrivals es)
              ∙ ap (λ (z : List (ℕ × Bytes)). a.handed ++ z) (sym (arrivals_cons e es)),
          closed_c ∙ closed es,
          idle_c,
          call_c,
        ),
      )
