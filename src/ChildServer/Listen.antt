-- ===== src/ChildServer/Listen.antt =====
-- `initServer`, `listenNewClients`, `listenToClients` and `listenAndResolve`, of childServer.c.
use snuffin.ChildServer.Requests.{resolve_request}
use snuffin.Game.Board.{assign, max_players}
use snuffin.Log.{log_error, connect_log_server, log_msg}
use snuffin.ChildServer.State.{Memory, Db, user, with_log, logging, Server, Client}
use snuffin.Common.{
  replicate, [], ◌==◌, ltb, some, if◌then◌else◌, ◌>>=◌, ◌+◌, ◌∷◌, none, Option, List, Bool, ℕ,
}

-- The loop over the four clients that counts them and moves `nextEmpty`; `i` is the number of the
-- first of `cs`.
unfoldable pub scan_clients : ℕ → List (Option Client) → ℕ → ℕ → ℕ × ℕ
scan_clients i [] n_players next_empty = (n_players, next_empty)
scan_clients i (some c ∷ cs) n_players next_empty =
    scan_clients (i + 1) cs (n_players + 1) (if next_empty == i then next_empty + 1 else next_empty)
scan_clients i (none ∷ cs) n_players next_empty =
    scan_clients (i + 1) cs n_players (if ltb i next_empty then i else next_empty)

-- A fresh client; its name and score are not set.
abbrev pub new_client : ℕ → Client
new_client con = record { name = none; state = logging; expecting = user; score = none; con = con }

-- Up to `listenConnection`, which returns or ends the process. `opened` says whether the queue of the log server can be opened. The thread that is created runs
-- `listen_round`.
unfoldable pub init_server : {D : Type 0} → Bool → Server D → Option (Server D)
init_server opened s =
    let clients : List (Option Client) = replicate max_players none in
    let (code, log) = connect_log_server opened s.log in
    with_log (log_msg "Initializing server") (record s { clients = clients; log = log })

-- The local variables of the thread.
pub record Listener : Type 0 where
  pub n_players : ℕ
  pub next_empty : ℕ

abbrev pub new_listener : Listener
new_listener = record { n_players = 0; next_empty = 0 }

module _ {D : Type 0} where
  -- `acceptConnection` has returned `con`.
  unfoldable pub add_client : ℕ → Listener → Server D → Option (Server D)
  add_client con l s = do
    s ← with_log (log_msg "New incoming connection") s
    clients ← assign s.clients l.next_empty (some (new_client con))
    some (record s { clients = clients })

  -- One round of the loop. With four players it only counts again; `con` is used otherwise.
  unfoldable pub listen_round : ℕ → Listener → Server D → Option (Listener × Server D)
  unfolding add_client
  listen_round con l s = do
    s ← (if ltb l.n_players max_players then add_client con l s else some s)
    let (n_players, next_empty) = scan_clients 0 s.clients 0 l.next_empty
    some (record { n_players = n_players; next_empty = next_empty }, s)

-- After `select`: the first client whose connection is in the set.
unfoldable pub first_ready : (ℕ → Bool) → ℕ → List (Option Client) → Option ℕ
first_ready fd_isset i [] = none
first_ready fd_isset i (none ∷ cs) = first_ready fd_isset (i + 1) cs
first_ready fd_isset i (some c ∷ cs) =
    if fd_isset c.con then some i else first_ready fd_isset (i + 1) cs

-- One round: whether `select` returned -1, the set that it left, and the clients that are there then.
pub record Selected : Type 0 where
  pub broken : Bool
  pub fd_isset : ℕ → Bool
  pub seen : List (Option Client)

-- The result is the number of a client, or `some none` for -1; `none` while the loop goes on.
unfoldable pub listen_to_clients : List Selected → Option (Option ℕ)
unfolding first_ready
listen_to_clients [] = none
listen_to_clients (r ∷ rs) =
    let rest = listen_to_clients rs in
    elim (first_ready r.fd_isset 0 r.seen) [
      | some i ↦ some (some i)
      | none ↦ if r.broken then some none else rest
    ]

module _ {D : Type 0} (db : Db D) where
  -- `listenToClients` has returned `chosen`.
  unfoldable pub listen_and_resolve : Memory → Option ℕ → Server D → Option (Server D)
  listen_and_resolve memory none s = with_log (log_error "Error in Select") s
  listen_and_resolve memory (some n) s = resolve_request db memory n s

  -- The loop of `lobby`, each entry for a round; it ends when the game starts, and `initGame` is called
  -- then.
  unfoldable pub lobby : List (Memory × Option ℕ) → Server D → Option (Server D)
  unfolding listen_and_resolve
  lobby [] s = some s
  lobby ((memory, chosen) ∷ rounds) s =
      let rest = listen_and_resolve memory chosen s >>= λ s. lobby rounds s in
      if s.start_game == 0 then rest else some s
