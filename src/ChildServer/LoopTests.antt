-- ===== src/ChildServer/LoopTests.antt =====
-- The theorem on the match of childServer.c at a concrete input.
use snuffin.ChildServer.Over.{still_in}
use snuffin.Common.{length}
use snuffin.ChildServer.Lobby.Loops.{Rounds}
use snuffin.ChildServer.Fixtures.{client}
use snuffin.ChildServer.State.{playing, loose, movement, send_data}
use snuffin.Game.Board.{GameBoard}
use snuffin.Marshalling.Grid.Write.{board_text}
use snuffin.ChildServer.Match.{send_board_from}
use snuffin.Common.{◌++◌}
use snuffin.Libc.Buffer.{c_string_lem}
use snuffin.Marshalling.Grid.Write.{marsh_board_lem}
use snuffin.Marshalling.Message.{encode_board, marshalling}
use snuffin.Game.Tick.{update_player, update_from, update_board}
use snuffin.Game.Board.{absent}
use snuffin.ComWrapper.Reader.{start}
use snuffin.Log.{send_log, log_error}
use snuffin.ChildServer.Lobby.Loops.{play_lem, IsOver}
use snuffin.Common.{◌<◌}
use snuffin.ChildServer.Listen.{listen_and_resolve}
use snuffin.Libc.Print.{show_int, Bytes}
use snuffin.ChildServer.Fixtures.{memory, lobby_of, one_user}
use snuffin.ChildServer.Match.{is_game_over, send_board, game_round, listen_to_movement, play}
use snuffin.ChildServer.State.{Server}
use snuffin.Marshalling.Grid.Shape.{IsCell, IsRow, IsSquare}
use snuffin.Common.{
  refl, true, ◌≡◌, false, [], arith, some, ◌∷◌, none, replicate, All, length-replicate, List, ℕ,
  zero, suc,
}

All-replicate : {A : Type 0} (P : A → Type 0) (n : ℕ) (a : A) → P a → All P (replicate n a)
All-replicate P zero a h = tt
All-replicate P (suc n) a h = (h, All-replicate P n a h)

abbrev blank : List Bytes
blank = replicate 20 (replicate 20 0)

blank-IsSquare : IsSquare 20 blank
blank-IsSquare = (
  length-replicate {A = Bytes} 20 (replicate 20 0),
  All-replicate (IsRow 20) 20 (replicate 20 0)
      (length-replicate {A = ℕ} 20 0, All-replicate IsCell 20 0 (omega arith)),
)

abbrev empty_board : GameBoard
empty_board = record {
  b_b = blank;
  g_b = blank;
  num_pl = 0;
  p_def = absent ∷ absent ∷ absent ∷ absent ∷ [];
  p_dir = none ∷ none ∷ none ∷ none ∷ [];
  p_pos = none ∷ none ∷ none ∷ none ∷ [];
}

-- A match of two, of which one has lost.
abbrev decided : Server Unit
decided =
    record (lobby_of
      (some (client 8 playing movement) ∷ none ∷ some (client 9 loose movement) ∷ none ∷ [])
      start) {
        game_board = some empty_board;
        log = record { connected = false; pid = 4711; sent = [] };
      }

abbrev evening : Rounds
evening = ((memory, none) ∷ [], 0 ∷ []) ∷ (([], 0 ∷ []) ∷ [])

abbrev picture : Bytes
picture = board_text 20 blank ++ 0 ∷ []

abbrev shown : Server Unit
shown = record decided { sent = (8, picture) ∷ (9, picture) ∷ [] }

one_round : play one_user evening decided ≡ some (true, shown)
unfolding play listen_to_movement listen_and_resolve log_error send_log game_round update_board
    update_from update_player send_board marshalling encode_board is_game_over send_data show_int
    send_board_from
one_round =
    rw
      (marsh_board_lem 20 blank (0 ∷ []) blank-IsSquare (omega arith) (omega arith)
        (c_string_lem [] [] tt))
      refl

play_lem_example :
    (true ≡ true → IsOver one_user evening decided shown)
    × (true ≡ false → 1 < length (still_in shown.clients))
play_lem_example = play_lem one_user evening decided (omega arith) one_round
