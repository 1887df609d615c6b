-- ===== src/GameClient/Fixtures.antt =====
-- A player, a table and a board on which the theorems on client.c are tried.
use snuffin.Common.Int.{pos}
use snuffin.ComWrapper.Reader.{start}
use snuffin.Structs.{Player}
use snuffin.GameClient.Watch.{CanShow}
use snuffin.GameClient.Hear.{IsQuiet}
use snuffin.GameClient.Dialogue.{Talk}
use snuffin.GameClient.Lobby.{Lobby}
use snuffin.GameClient.Loops.{Session}
use snuffin.Libc.Print.{Bytes, show_int}
use snuffin.Common.{
  ◌++◌, none, arith, codes, refl, ◌∷◌, length-replicate, [], replicate, some, List, ℕ,
}
use snuffin.Marshalling.Decode.{Frame}

abbrev pub seat : ℕ → Player
seat n = record { name = codes "ana" ++ 0 ∷ []; num = pos n; score = pos 3; ready = pos 0 }

abbrev pub seats : Lobby
seats = record {
  players = some (seat 0) ∷ none ∷ some (seat 2) ∷ none ∷ [];
  n_players = pos 0;
  game_start = pos 0;
}

-- A password with a key taken back, and one key more than the line.
abbrev pub keys : List ℕ
keys = b'a' ∷ b'x' ∷ 127 ∷ b'b' ∷ b'\n' ∷ b'q' ∷ []

abbrev pub silence : Talk
silence = record { buffer = replicate 1024 0; my_name = []; reader = start; sent = [] }

pub silence-IsQuiet : IsQuiet 1024 silence
silence-IsQuiet = record { none_left = refl; size = length-replicate {A = ℕ} 1024 0 }

abbrev pub watcher : Session
watcher = record { talk = silence; lobby = seats; screen = [] }

abbrev pub small_board : List Bytes
small_board = (1 ∷ 0 ∷ []) ∷ (0 ∷ 2 ∷ []) ∷ []

abbrev pub frame : Frame
frame = record {
  nombre = replicate 20 0;
  num = replicate 5 0;
  num2 = replicate 5 0;
  num3 = replicate 5 0;
}

pub small_board-CanShow : CanShow 2 1024 (frame, small_board)
unfolding show_int
small_board-CanShow = record {
  whole = (
    refl,
    ((refl, (omega arith, (omega arith, tt))), ((refl, (omega arith, (omega arith, tt))), tt)),
  );
  fits = omega arith;
  num = ground arith;
  num2 = ground arith;
}
