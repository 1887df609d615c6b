-- ===== src/ChildServer/Tests.antt =====
-- The theorems on childServer.c at concrete inputs.
use snuffin.Libc.Strtol.{read_int}
use snuffin.Database.Shared.{to_byte, char_value, string_at, write_at}
use snuffin.Libc.Buffer.{sprintf, memcpy, store, c_string}
use snuffin.Database.Lobby.{lobby_db}
use snuffin.Database.Queries.{write_digits, count_digits, load_int, get_highscore, is_user, Sqlite}
use snuffin.Database.Requests.{
  answer_score, serve, manage, exist_user_db, get_high_score_db, Shared,
}
use snuffin.ChildServer.Begin.{start_board-IsFirstBoard, IsFirstBoard}
use snuffin.ChildServer.Match.{start_board}
use snuffin.ChildServer.Fixtures.{newcomer, memory, lobby_of, ready_pair, client}
use snuffin.ChildServer.Start.{check_game_start_lem, to_all, flag, in_game}
use snuffin.ChildServer.Slots.{listen_round_lem, InStep, first_empty}
use snuffin.ChildServer.Leave.{disconnect_lem, leaving, to_others, update_player-gone}
use snuffin.Game.Load.{point_at}
use snuffin.Game.Tick.{update_player}
use snuffin.Game.Cells.{peek}
use snuffin.ChildServer.Login.{resolve_request-user, named}
use snuffin.Common.Int.{eqb_ℤ, ◌+ℤ◌, pos}
use snuffin.ComWrapper.Queue.{IsPending}
use snuffin.ChildServer.Notify.{disconnect}
use snuffin.ChildServer.Requests.{count_players, resolve_request, all_ready, check_game_start}
use snuffin.Libc.Print.{show_int}
use snuffin.ChildServer.Listen.{new_client, listen_round, Listener}
use snuffin.ChildServer.Match.{player_lost}
use snuffin.ComWrapper.Reader.{start, Reader}
use snuffin.Log.{Log}
use snuffin.ChildServer.State.{password, new_password, ready_to_play, ready_play, Server, client_at}
use snuffin.Game.Board.{max_players, absent, alive, tail_char, point_of, GameBoard}
use snuffin.Common.{
  length-replicate, arith, false, refl, map, set, ◌&&◌, ◌>>=◌, ltb, if◌then◌else◌, ◌∷◌, ◌++◌, none,
  ◌≡◌, [], codes, replicate, true, some, ℕ,
}

check_game_start_lem_example :
    (s' : Server Unit) × (check_game_start ready_pair ≡ some s')
    × ((all_ready ready_pair.clients && ltb 1 (count_players ready_pair.clients)) ≡ true
        → (s'.clients ≡ map in_game ready_pair.clients)
          × (s'.sent ≡ ready_pair.sent ++ to_all (flag true) ready_pair.clients)
          × (s'.start_game ≡ 1))
    × ((all_ready ready_pair.clients && ltb 1 (count_players ready_pair.clients)) ≡ false
        → s' ≡ ready_pair)
check_game_start_lem_example = check_game_start_lem ready_pair (omega arith)

disconnect_lem_example :
    (log : Log) × (disconnect 2 ready_pair ≡ (
      (client 9 ready_play ready_to_play).name >>= λ freed. some (record ready_pair {
        clients = set ready_pair.clients 2 none;
        sent = ready_pair.sent ++ to_others 2 (leaving 2) 0 ready_pair.clients;
        log = log;
      })))
unfolding client_at
disconnect_lem_example =
    disconnect_lem 2 (client 9 ready_play ready_to_play) ready_pair refl (omega arith) (omega arith)

abbrev second : Listener
second = record { n_players = 2; next_empty = 1 }

listen_round_lem_example :
    (l' : Listener) × (s' : Server Unit) × (listen_round 11 second ready_pair ≡ some (l', s'))
    × (s'.clients ≡ (
        if ltb second.n_players max_players
        then set ready_pair.clients second.next_empty (some (new_client 11))
        else ready_pair.clients))
    × (l'.n_players ≡ count_players s'.clients)
    × (l'.next_empty ≡ first_empty s'.clients)
    × InStep l' s'
listen_round_lem_example =
    listen_round_lem 11 second ready_pair
      (record { size = refl; room = omega arith; free = λ _. refl }) (omega arith)

-- The program's data base, of one player.
abbrev players : Sqlite Unit
players = record {
  column_int = λ sql column d. pos 1;
  column_text = λ sql column d. some (codes "clave");
  exec = λ sql d. (0, d);
}

abbrev joining : Server (Shared Unit)
joining = record {
  clients = newcomer.clients;
  start_game = 0;
  game_board = none;
  reader = newcomer.reader;
  sent = [];
  log = newcomer.log;
  db = (replicate 1024 0, tt);
}

asked :
    (d : Shared Unit) × (d' : Shared Unit) × (exist_user_db players
        (codes "ana" ++ 0 ∷ [])
        joining.db
      ≡ some (pos 1, d))
    × (get_high_score_db players (codes "ana" ++ 0 ∷ []) d ≡ some (pos 1, d'))
unfolding exist_user_db manage serve is_user c_string store write_at memcpy string_at sprintf
    char_value to_byte get_high_score_db answer_score get_highscore load_int count_digits
    write_digits read_int
asked = (_, _, refl, refl)

resolve_request-user_example :
    (reader : Reader) × IsPending reader (codes "41" ∷ [])
    × (resolve_request (lobby_db players) memory 0 joining
        ≡ some (
            if eqb_ℤ (pos 1) (pos 0)
            then record joining {
              reader = reader;
              clients =
                  set joining.clients 0
                    (some (named (codes "ana") new_password (pos 0) (new_client 8)));
              sent = joining.sent ++ (8, flag false) ∷ [];
              db = asked.0;
            }
            else record joining {
              reader = reader;
              clients =
                  set joining.clients 0
                    (some (named (codes "ana") password (pos 1) (new_client 8)));
              sent = joining.sent ++ (8, flag true) ∷ [];
              db = asked.1;
            }))
unfolding client_at show_int
resolve_request-user_example =
    resolve_request-user (lobby_db players) 0 (new_client 8) joining (codes "ana") (codes "41" ∷ [])
      memory refl asked.2 asked.3 refl ([], refl, refl, refl, ground arith)
      (omega (arith, length-replicate {A = ℕ} 1024 0)) (λ k. length-replicate k 0) (ground arith)
      (ground arith) (omega arith)

-- A snake before a trail, whose client has left.
abbrev full_board : GameBoard
full_board = record {
  b_b = replicate 20 (replicate 20 tail_char);
  g_b = replicate 20 (replicate 20 1);
  num_pl = 1;
  p_def = alive ∷ absent ∷ absent ∷ absent ∷ [];
  p_dir = some (point_at 1 0) ∷ none ∷ none ∷ none ∷ [];
  p_pos = some (point_at 3 3) ∷ none ∷ none ∷ none ∷ [];
}

update_player-gone_example :
    update_player player_lost 0 full_board (lobby_of (replicate 4 none) start) ≡ none
unfolding client_at point_of peek ◌+ℤ◌
update_player-gone_example =
    update_player-gone full_board 0 (lobby_of (replicate 4 none) start) (point_at 3 3)
      (point_at 1 0) refl refl refl refl refl

-- What the memory of a board may hold before `initBoard`.
abbrev uninit : GameBoard
uninit = record {
  b_b = [];
  g_b = [];
  num_pl = 3;
  p_def = replicate 4 alive;
  p_dir = replicate 4 none;
  p_pos = replicate 4 none;
}

start_board-IsFirstBoard_example :
    (t : Server Unit) × (b : GameBoard) × (start_board uninit ready_pair ≡ some t)
    × (t.game_board ≡ some b)
    × (t.clients ≡ ready_pair.clients)
    × IsFirstBoard ready_pair.clients b
start_board-IsFirstBoard_example =
    start_board-IsFirstBoard uninit ready_pair (omega arith) refl refl (omega arith)
