-- ===== src/TcpServer/SubLoop.antt =====
-- src/net/EventLoop.cpp, tcpServer.cpp, tcpConnection.cpp and Channel.cpp: what a loop of the pool does with its
-- connections. A connection is a number, given in the order of their creation.
pub mod Members
pub mod Stages
use adl_server.Base.{
  ℕ, ◌==◌, Bool, true, false, not, ◌&&◌, ◌||◌, List, [], ◌∷◌, ◌++◌, if◌then◌else◌, Result, ok,
  check, assert_failed, ◌>>=◌, ◌>>◌,
}
use adl_server.TcpConnection.{
  State, disconnected, connecting, connected, disconnecting, is_connected, is_connecting,
  is_disconnected, is_disconnecting,
}

-- The functors that are queued for a connection: `addConnectInLoop`, `connectEstablished`,
-- `forceCloseInLoop` and `connectDestroyed`.
pub data Kind : Type 0 where
  add_connect establish close_forced destroy : Kind

abbrev pub Task : Type 0
Task = ℕ × Kind

-- `connect_set` holds the connections of `connectSet_`, each once; `watched` tells which channels
-- listen for events.
pub record SubLoop : Type 0 where
  pub connect_set : List ℕ
  pub pending : List Task
  pub state : ℕ → State
  pub watched : ℕ → Bool

unfoldable pub is_member : ℕ → List ℕ → Bool
is_member c [] = false
is_member c (d ∷ ds) = (c == d) || is_member c ds

-- `insert` and `erase` of a set.
unfoldable pub insert : ℕ → List ℕ → List ℕ
insert c ds = if is_member c ds then ds else c ∷ ds

unfoldable pub erase : ℕ → List ℕ → List ℕ
erase c [] = []
erase c (d ∷ ds) = let rest = erase c ds in if c == d then rest else d ∷ rest

unfoldable pub set_at {ℓ} : {A : Type ℓ} → ℕ → A → (ℕ → A) → ℕ → A
set_at c v f d = if d == c then v else f d

abbrev pub queue : Task → SubLoop → SubLoop
queue t l = record l { pending = l.pending ++ (t ∷ []) }

-- A new connection is connecting, and does not listen. The callback of the acceptor runs on another
-- thread, so both `runInLoop`s queue.
unfoldable pub new_connection : ℕ → SubLoop → SubLoop
new_connection c l =
    let m : SubLoop = record l {
      state = set_at c connecting l.state;
      watched = set_at c false l.watched;
    } in
    queue (c, establish) (queue (c, add_connect) m)

abbrev pub is_open : State → Bool
is_open s = is_connected s || is_disconnecting s

-- `removeConnection`, which runs at once on the loop's thread, and `rmConnect` with it.
unfoldable pub remove_connection : ℕ → SubLoop → SubLoop
remove_connection c l = record (queue (c, destroy) l) { connect_set = erase c l.connect_set }

-- `handleClose`, whose callback is `removeConnection`.
unfoldable pub handle_close : ℕ → SubLoop → Result SubLoop
handle_close c l = do
  check (is_open (l.state c)) assert_failed
  ok (
      remove_connection c
        (record l { state = set_at c disconnected l.state; watched = set_at c false l.watched }))

unfoldable pub connect_established : ℕ → SubLoop → Result SubLoop
connect_established c l = do
  check (is_connecting (l.state c)) assert_failed
  ok (record l { state = set_at c connected l.state; watched = set_at c true l.watched })

-- `connectDestroyed`, and the destructor where the set does not hold the connection any more.
unfoldable pub connect_destroyed : ℕ → SubLoop → Result SubLoop
connect_destroyed c l =
    let m : SubLoop = record l {
      state = if is_connected (l.state c) then set_at c disconnected l.state else l.state;
      watched = set_at c false l.watched;
    } in
    do check (is_member c m.connect_set || is_disconnected (m.state c)) assert_failed; ok m

unfoldable pub run_task : Task → SubLoop → Result SubLoop
run_task (c, add_connect) l = ok (record l { connect_set = insert c l.connect_set })
run_task (c, establish) l = connect_established c l
run_task (c, close_forced) l = if is_open (l.state c) then handle_close c l else ok l
run_task (c, destroy) l = connect_destroyed c l

unfoldable pub run_tasks : List Task → SubLoop → Result SubLoop
run_tasks [] l = ok l
run_tasks (t ∷ ts) l = do m ← run_task t l; run_tasks ts m

-- `doPendingFunctors`: what is queued meanwhile waits for the next round.
unfoldable pub run_pending : SubLoop → Result SubLoop
run_pending l = run_tasks l.pending (record l { pending = [] })

-- `shutdown` and `forceClose` of a connection.
unfoldable pub shutdown : ℕ → SubLoop → SubLoop
shutdown c l =
    if is_connected (l.state c) then record l { state = set_at c disconnecting l.state } else l

unfoldable pub force_close : ℕ → SubLoop → SubLoop
force_close c l =
    if is_open (l.state c)
    then queue (c, close_forced) (record l { state = set_at c disconnecting l.state })
    else l

-- `Channel::handleEvent` of a connection, as far as it closes it: the close handler for a hangup
-- without EPOLLIN, and then the read handler, which closes where it finds the end of the stream. The
-- second goes by the same set of events, whatever the first has done.
unfoldable pub dispatch_event : ℕ → Bool → Bool → SubLoop → Result SubLoop
dispatch_event c hangup ends l = do
  m ← if hangup then handle_close c l else ok l
  if ends then handle_close c m else ok m

-- What a loop is asked to do. `event c hangup ends` is one that epoll reports of a channel that
-- listens: `hangup` is EPOLLHUP without EPOLLIN, and `ends` says that the read handler runs and finds
-- the end of the stream.
pub data Action : Type 0 where
  accepted : ℕ → Action
  round : Action
  event : ℕ → Bool → Bool → Action
  shuts_down closes : ℕ → Action

unfoldable pub act : Action → SubLoop → Result SubLoop
act (accepted c) l = ok (new_connection c l)
act round l = run_pending l
act (event c hangup ends) l = if l.watched c then dispatch_event c hangup ends l else ok l
act (shuts_down c) l = ok (shutdown c l)
act (closes c) l = ok (force_close c l)

unfoldable pub act_all : List Action → SubLoop → Result SubLoop
act_all [] l = ok l
act_all (a ∷ rest) l = do m ← act a l; act_all rest m

abbrev pub new_sub_loop : SubLoop
new_sub_loop = record {
  connect_set = [];
  pending = [];
  state = λ c. connecting;
  watched = λ c. false;
}
