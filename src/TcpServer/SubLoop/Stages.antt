-- ===== src/TcpServer/SubLoop/Stages.antt =====
-- The stages that a connection goes through on its loop, and what one task or request does to them.
pub mod Tasks
pub mod Requests
pub mod Rest
pub mod Lives
use adl_server.Base.{
  ℕ, zero, suc, ◌+◌, ◌≤◌, ◌==◌, Bool, true, false, ◌||◌, List, [], ◌∷◌, ◌++◌, append-nil,
  append_assoc, if◌then◌else◌, Bool-cases, inl, inr, Result, ok, check, ◌>>=◌, ◌>>◌, ◌≡◌, ◌≢◌, refl,
  sym, ap, ◌∙◌, arith,
}
use adl_server.TcpConnection.{
  State, disconnected, connecting, connected, disconnecting, is_connected, is_connecting,
  is_disconnected, is_disconnecting,
}
use adl_server.TcpServer.SubLoop.{
  Kind, add_connect, establish, close_forced, destroy, Task, SubLoop, is_member, insert, erase,
  set_at, queue, is_open, new_connection, remove_connection, handle_close, connect_established,
  connect_destroyed, run_task, shutdown, force_close,
}
use adl_server.TcpServer.SubLoop.Members.{
  other, itself, is_member-insert, is_member-insert_other, is_member-erase, is_member-erase_other,
  set_at_same, set_at_other,
}

-- Not there yet, queued, in the set, established, with `forceClose` called some times or shut down,
-- closed, and destroyed.
pub data Stage : Type 0 where
  unborn waiting entered up gone : Stage
  half down : ℕ → Stage

-- The tasks of a connection among those of its loop, in order.
abbrev pub kinds_of : ℕ → List Task → List Kind
kinds_of c [] = []
kinds_of c ((d, k) ∷ ts) = let rest = kinds_of c ts in if c == d then k ∷ rest else rest

abbrev pub forced : ℕ → List Kind → List Kind
forced zero ks = ks
forced (suc n) ks = close_forced ∷ forced n ks

-- What a loop knows of a connection: its tasks, whether it is in the set, its state, and whether its
-- channel listens.
abbrev pub View : Type 0
View = List Kind × Bool × State × Bool

abbrev pub stage_view : Stage → View
stage_view unborn = ([], false, connecting, false)
stage_view waiting = (add_connect ∷ establish ∷ [], false, connecting, false)
stage_view entered = (establish ∷ [], true, connecting, false)
stage_view up = ([], true, connected, true)
stage_view (half n) = (forced n [], true, disconnecting, true)
stage_view (down n) = (forced n (destroy ∷ []), false, disconnected, false)
stage_view gone = ([], false, disconnected, false)

-- The tasks `ts` are to run before those that are pending.
abbrev pub view : ℕ → List Task → SubLoop → View
view c ts l = (kinds_of c (ts ++ l.pending), is_member c l.connect_set, l.state c, l.watched c)

kinds_of-append :
    (c : ℕ) (ts us : List Task) → kinds_of c (ts ++ us) ≡ kinds_of c ts ++ kinds_of c us
kinds_of-append c [] us = refl
kinds_of-append c ((d, k) ∷ ts) us = elim (Bool-cases (c == d)) [
  | inl y ↦ rw y (ap (λ (z : List Kind). k ∷ z) (kinds_of-append c ts us))
  | inr m ↦ rw m (kinds_of-append c ts us)
]

kinds_of-queue :
    (d : ℕ) (t : Task) (ts : List Task) (l : SubLoop)
    → kinds_of d (ts ++ (l.pending ++ (t ∷ [])))
      ≡ kinds_of d (ts ++ l.pending) ++ kinds_of d (t ∷ [])
kinds_of-queue d t ts l =
    ap (λ (z : List Task). kinds_of d z) (sym (append_assoc ts l.pending (t ∷ [])))
    ∙ kinds_of-append d (ts ++ l.pending) (t ∷ [])

-- A task of another connection is not one of this.
kinds_of-other : (d c : ℕ) (k : Kind) → d ≢ c → kinds_of d ((c, k) ∷ []) ≡ []
kinds_of-other d c k h = rw (other d c h) refl

kinds_of-itself : (c : ℕ) (k : Kind) → kinds_of c ((c, k) ∷ []) ≡ k ∷ []
kinds_of-itself c k = rw (itself c) refl

pub queue_same :
    (c : ℕ) (k : Kind) (ts : List Task) (l : SubLoop)
    → kinds_of c (ts ++ (l.pending ++ ((c, k) ∷ []))) ≡ kinds_of c (ts ++ l.pending) ++ (k ∷ [])
queue_same c k ts l =
    kinds_of-queue c (c, k) ts l
    ∙ ap (λ (z : List Kind). kinds_of c (ts ++ l.pending) ++ z) (kinds_of-itself c k)

pub queue_other :
    (c d : ℕ) (k : Kind) (ts : List Task) (l : SubLoop)
    → d ≢ c
    → kinds_of d (ts ++ (l.pending ++ ((c, k) ∷ []))) ≡ kinds_of d (ts ++ l.pending)
queue_other c d k ts l h =
    kinds_of-queue d (c, k) ts l
    ∙ ap (λ (z : List Kind). kinds_of d (ts ++ l.pending) ++ z) (kinds_of-other d c k h)
    ∙ append-nil (kinds_of d (ts ++ l.pending))

pub forced-append : (n : ℕ) (ks js : List Kind) → forced n ks ++ js ≡ forced n (ks ++ js)
forced-append zero ks js = refl
forced-append (suc n) ks js = ap (λ (z : List Kind). close_forced ∷ z) (forced-append n ks js)

pub forced_more : (n : ℕ) → forced n (close_forced ∷ []) ≡ forced (suc n) []
forced_more zero = refl
forced_more (suc n) = ap (λ (z : List Kind). close_forced ∷ z) (forced_more n)

-- Views with equal parts.
pub view_eq :
    {ks js : List Kind} {a b : Bool} {s t : State} {v w : Bool}
    → ks ≡ js
    → a ≡ b
    → s ≡ t
    → v ≡ w
    → ◌≡◌ {A = View} (ks, a, s, v) (js, b, t, w)
view_eq p q r s = λ i. (p i, q i, r i, s i)

-- A step of a connection changes its own view and that of no other.
abbrev pub Moves : ℕ → List Task → SubLoop → List Task → Result SubLoop → Stage → Type 0
Moves c ts l us r q =
    (m : SubLoop) × (r ≡ ok m)
    × (view c us m ≡ stage_view q)
    × ((d : ℕ) → d ≢ c → view d us m ≡ view d ts l)

pub handle_close-Moves :
    (c n : ℕ) (ts : List Task) (l : SubLoop)
    → kinds_of c (ts ++ l.pending) ≡ forced n []
    → is_open (l.state c) ≡ true
    → Moves c ts l ts (handle_close c l) (down n)
unfolding handle_close remove_connection
handle_close-Moves c n ts l tasks opened = (
  _,
  rw opened refl,
  view_eq
      (queue_same c destroy ts l
        ∙ ap (λ (z : List Kind). z ++ (destroy ∷ [])) tasks
        ∙ forced-append n [] (destroy ∷ []))
      (is_member-erase c l.connect_set) (set_at_same c disconnected l.state)
      (set_at_same c false l.watched),
  λ d h.
      view_eq (queue_other c d destroy ts l h) (is_member-erase_other c d l.connect_set h)
        (set_at_other c d disconnected l.state h) (set_at_other c d false l.watched h),
)
