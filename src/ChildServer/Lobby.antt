-- ===== src/ChildServer/Lobby.antt =====
-- The threads of childServer.c together: what listens for clients, what resolves their requests, and
-- the game, in any order. Each takes its turn with whole calls.
pub mod Sound
pub mod Free
pub mod Safe
pub mod Loops
use snuffin.Libc.Print.{Bytes}
use snuffin.Game.Board.{GameBoard}
use snuffin.ChildServer.Match.{game_round, start_board, player_lost}
use snuffin.ChildServer.Requests.{resolve_request}
use snuffin.Common.{Bool, Option, some, ◌≡◌, ℕ}
use snuffin.ChildServer.Listen.{listen_and_resolve, listen_round, Listener}
use snuffin.ChildServer.State.{Memory, Server, Db}

abbrev pub Running : Type 0 → Type 0
Running D = Listener × Server D

-- One turn: the thread of `listenNewClients` takes its round, a request is resolved, the game starts
-- its board, or it takes a round.
pub data Turn {D : Type 0} (db : Db D) : Running D → Running D → Type 0 where
  listens :
      {l l' : Listener} {s s' : Server D} (con : ℕ)
      → listen_round con l s ≡ some (l', s')
      → Turn db (l, s) (l', s')
  resolves :
      {l : Listener} {s s' : Server D} (memory : Memory) (chosen : Option ℕ)
      → listen_and_resolve db memory chosen s ≡ some s'
      → Turn db (l, s) (l, s')
  begins :
      {l : Listener} {s s' : Server D} (uninit : GameBoard)
      → start_board uninit s ≡ some s'
      → Turn db (l, s) (l, s')
  plays :
      {l : Listener} {s s' : Server D} (behind : Bytes) (finished : Bool)
      → game_round behind s ≡ some (finished, s')
      → Turn db (l, s) (l, s')

pub data Runs {D : Type 0} (db : Db D) (first : Running D) : Running D → Type 0 where
  none_yet : Runs db first first
  and_then : {p q : Running D} → Runs db first p → Turn db p q → Runs db first q
