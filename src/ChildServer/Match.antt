-- ===== src/ChildServer/Match.antt =====
-- `initGame` of childServer.c and what it calls. The board is a local variable of `initGame` that
-- the global `gameBoard` points to, so it is the `game_board` of the server here.
use snuffin.ChildServer.Listen.{listen_and_resolve}
use snuffin.Marshalling.Tags.{board_tag}
use snuffin.Game.Load.{load_snake_number}
use snuffin.Log.{log_msg}
use snuffin.Marshalling.Message.{board, marshalling}
use snuffin.Game.Tick.{update_board}
use snuffin.Common.Int.{negsuc, add_int, pos}
use snuffin.Libc.Buffer.{c_string}
use snuffin.Structs.{Board, StreamData}
use snuffin.ChildServer.Requests.{count_players, change}
use snuffin.ChildServer.State.{send_boolean, send_data, with_log, loose, Server, Client, Memory, Db}
use snuffin.Game.Board.{init_board, GameBoard}
use snuffin.Libc.Print.{Bytes}
use snuffin.Common.{
  ◌==◌, not, true, none, [], suc, ◌+◌, leb, if◌then◌else◌, false, some, ◌∷◌, Bool, ◌>>=◌, Option, ℕ,
  List,
}

-- The clients that are there, and those that are there and have lost.
unfoldable pub count_total : List (Option Client) → ℕ
count_total [] = 0
count_total (none ∷ cs) = count_total cs
count_total (some c ∷ cs) = suc (count_total cs)

unfoldable pub count_lost : List (Option Client) → ℕ
count_lost [] = 0
count_lost (none ∷ cs) = count_lost cs
count_lost (some c ∷ cs) = if c.state == loose then suc (count_lost cs) else count_lost cs

-- `lost >= total-1` on `int`.
unfoldable pub is_game_over : List (Option Client) → Bool
unfolding count_total count_lost
is_game_over cs = leb (count_total cs) (count_lost cs + 1)

-- The loop that loads a snake for each client; `i` is the number of the first of `cs`.
unfoldable pub load_players : ℕ → List (Option Client) → GameBoard → Option GameBoard
load_players i [] b = some b
load_players i (none ∷ cs) b = load_players (i + 1) cs b
load_players i (some c ∷ cs) b = load_snake_number (i + 1) b >>= λ b. load_players (i + 1) cs b

module _ {D : Type 0} where
  unfoldable pub player_lost : ℕ → Server D → Option (Server D)
  player_lost n s = change n (λ c. record c { state = loose }) s

  unfoldable pub send_board_from : List (Option Client) → StreamData → Server D → Option (Server D)
  send_board_from [] d s = some s
  send_board_from (none ∷ cs) d s = send_board_from cs d s
  send_board_from (some c ∷ cs) d s = send_data c.con d s >>= λ s. send_board_from cs d s

  -- The rows are those of the board itself. `behind` is as in `marsh_board`.
  unfoldable pub send_board : Bytes → GameBoard → Server D → Option (Server D)
  unfolding send_board_from
  send_board behind gb s = do
    let bd : Board = record { board = gb.g_b; rows = pos 20; columns = pos 20 }
    d ← marshalling behind (board bd) board_tag
    send_board_from s.clients d s

  -- `uninit` is the board before `initBoard`.
  unfoldable pub start_board : GameBoard → Server D → Option (Server D)
  unfolding load_players
  start_board uninit s = do
    s ← with_log (log_msg "Game starting") s
    b ← load_players 0 s.clients (init_board uninit)
    some (record s { game_board = some (record b { num_pl = count_players s.clients }) })

  -- One round of the loop, after the sleep: the tick, the board to all clients, and whether the game
  -- is over.
  unfoldable pub game_round : Bytes → Server D → Option (Bool × Server D)
  unfolding player_lost send_board is_game_over
  game_round behind s = do
    b ← s.game_board
    (b, s) ← update_board player_lost b s
    let s : Server D = record s { game_board = some b }
    s ← send_board behind b s
    some (is_game_over s.clients, s)

module _ {D : Type 0} (db : Db D) where
  -- The thread that listens to the players, each entry for a round of its loop.
  unfoldable pub listen_to_movement : List (Memory × Option ℕ) → Server D → Option (Server D)
  listen_to_movement [] s = some s
  listen_to_movement ((memory, chosen) ∷ rounds) s =
      listen_and_resolve db memory chosen s >>= λ s. listen_to_movement rounds s

  -- The loop: each entry stands for a round, with the requests that were resolved during its sleep
  -- and the heap that `send_board` meets. The result says whether the game ended in these rounds.
  unfoldable pub play :
      List (List (Memory × Option ℕ) × Bytes) → Server D → Option (Bool × Server D)
  unfolding listen_to_movement
  play [] s = some (false, s)
  play ((requests, behind) ∷ rounds) s = listen_to_movement requests s >>= λ s.
      game_round behind s >>= λ (finished, s).
      (let rest = play rounds s in if finished then some (true, s) else rest)

  -- Ten points more, and TRUE, for each client that has not lost; ten less, and FALSE, for the others.
  unfoldable pub settle : Client → Server D → Option (Server D)
  settle c s = do
    name ← c.name
    name ← c_string name
    score ← c.score
    let won = not (c.state == loose)
    score ← add_int score (if won then pos 10 else negsuc 9)
    d ← db.set_high_score name score s.db
    send_boolean c.con won (record s { db = d })

  unfoldable pub settle_all : List (Option Client) → Server D → Option (Server D)
  unfolding settle
  settle_all [] s = some s
  settle_all (none ∷ cs) s = settle_all cs s
  settle_all (some c ∷ cs) s = settle c s >>= λ s. settle_all cs s

  -- The last message is freed at the end; without clients there was none, and the pointer is wild.
  unfoldable pub end_game : Server D → Option (Server D)
  unfolding settle_all
  end_game s = do
    s ← with_log (log_msg "Game over") s
    s ← settle_all s.clients s
    if count_total s.clients == 0 then none else some s
