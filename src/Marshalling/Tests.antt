-- ===== src/Marshalling/Tests.antt =====
-- Runs of marshalling.c, and its theorems at concrete inputs.
use snuffin.Marshalling.RoundTrip.{unmarsh-marsh_string, unmarsh-marsh_player}
use snuffin.Marshalling.Grid.Read.{unmarsh-marsh_board}
use snuffin.Marshalling.Faults.{unmarsh_server_id-stale, unmarshalling-long_string}
use snuffin.Marshalling.Grid.Write.{marsh_board-overread}
use snuffin.Marshalling.Message.{fresh_board, fresh_player, unmarshalling}
use snuffin.Marshalling.Grid.Shape.{square}
use snuffin.Libc.Strtol.{read_int}
use snuffin.Common.{
  drop, arith, none, ◌>>=◌, length, List, refl, some, [], replicate, ◌≡◌, ◌++◌, ◌∷◌, codes,
}
use snuffin.Marshalling.Decode.{
  unmarsh_string, unmarsh_server_id, copy_string, Frame, unmarsh_board, unmarsh_player,
}
use snuffin.Structs.{Point, Player, Board}
use snuffin.Common.Int.{◌+ℤ◌, mul_int, negsuc, pos}
use snuffin.Libc.Print.{Bytes, show_int}
use snuffin.Libc.Buffer.{memcpy, copy_until, c_string, store, calloc, sprintf}
use snuffin.Marshalling.Places.{num_places-eq, num_places}
use snuffin.Marshalling.Encode.{
  marsh_string, fill_row, fill_rows, marsh_board, marsh_server_id, marsh_player,
}

marsh_server_id_run : marsh_server_id (pos 42097) ≡ some (codes "842097" ++ 0 ∷ [], 7)
unfolding marsh_server_id num_places sprintf calloc show_int store
marsh_server_id_run = refl

marsh_player_run :
    marsh_player
      (record { name = codes "ana" ++ 0 ∷ []; num = pos 2; score = negsuc 9; ready = pos 1 })
    ≡ some (codes "2ana#2#-10#1" ++ 0 ∷ [], 13)
unfolding marsh_player num_places sprintf calloc show_int store c_string
marsh_player_run = refl

abbrev zero_frame : Frame
zero_frame = record {
  nombre = replicate 20 0;
  num = replicate 5 0;
  num2 = replicate 5 0;
  num3 = replicate 5 0;
}

unmarsh_player_run :
    unmarsh_player zero_frame
      (codes "2ana#2#-10#1" ++ 0 ∷ [])
      (record { name = replicate 20 0; num = pos 0; score = pos 0; ready = pos 0 })
    ≡ some (
      1,
      record { name = codes "ana" ++ replicate 17 0; num = pos 2; score = negsuc 9; ready = pos 1 },
    )
unfolding unmarsh_player copy_until read_int copy_string c_string memcpy
unmarsh_player_run = refl

abbrev board22 : Board
board22 = record { board = (1 ∷ 2 ∷ []) ∷ (3 ∷ 4 ∷ []) ∷ []; rows = pos 2; columns = pos 2 }

marsh_board_run : marsh_board (0 ∷ []) board22 ≡ some (codes "52#2#1234" ++ 0 ∷ [], pos 10)
unfolding marsh_board fill_rows fill_row num_places sprintf calloc show_int store memcpy c_string
    mul_int ◌+ℤ◌
marsh_board_run = refl

unmarsh_board_run :
    unmarsh_board zero_frame
      (codes "52#2#1234" ++ 0 ∷ [])
      (record { board = []; rows = pos 0; columns = pos 0 })
    ≡ some (1, board22)
unfolding unmarsh_board copy_until read_int store
unmarsh_board_run = refl

abbrev ana : Player
ana = record { name = codes "ana" ++ 0 ∷ []; num = pos 2; score = negsuc 9; ready = pos 1 }

abbrev dst : Bytes
dst = replicate 20 0

unmarsh-marsh_player_example :
    (marsh_player ana >>= λ (d, _). unmarsh_player zero_frame (d ++ codes "junk") fresh_player)
    ≡ some (1, record ana { name = codes "ana" ++ 0 ∷ drop 4 dst })
unfolding show_int c_string
unmarsh-marsh_player_example =
    unmarsh-marsh_player ana fresh_player zero_frame (codes "ana") (codes "junk") refl
      (ground arith) (ground arith) (ground arith) (ground arith) (omega arith) refl (ground arith)
      (ground arith) (ground arith) (omega arith)

unmarsh-marsh_string_example :
    (marsh_string (codes "pepe" ++ 0 ∷ []) >>= λ (d, _).
    unmarsh_string zero_frame (d ++ codes "x") dst)
    ≡ some (1, codes "pepe" ++ 0 ∷ drop 5 dst)
unfolding show_int c_string
unmarsh-marsh_string_example =
    unmarsh-marsh_string (codes "pepe" ++ 0 ∷ []) dst (codes "pepe") zero_frame (codes "x") refl
      (ground arith) (omega arith) (ground arith) (omega arith)

abbrev up : Point
up = record { x = pos 0; y = negsuc 0 }

abbrev cells : List Bytes
cells = (1 ∷ 2 ∷ []) ∷ (3 ∷ 4 ∷ []) ∷ []

unmarsh-marsh_board_example :
    (marsh_board (0 ∷ []) (square 2 cells) >>= λ (d, _).
    unmarsh_board zero_frame (d ++ codes "9") fresh_board)
    ≡ some (1, square 2 cells)
unfolding show_int c_string
unmarsh-marsh_board_example =
    unmarsh-marsh_board 2 cells (0 ∷ []) (codes "9") zero_frame fresh_board (ground arith)
      (omega arith) refl (ground arith) (ground arith)

marsh_board-overread_example : marsh_board (codes "7" ++ 0 ∷ []) (square 2 cells) ≡ none
unfolding c_string
marsh_board-overread_example =
    marsh_board-overread 2 cells (codes "7" ++ 0 ∷ []) b'7' [] (ground arith) (omega arith)
      (omega arith) refl

num_places-eq_example : num_places (negsuc 1023) ≡ length (show_int (negsuc 1023))
num_places-eq_example = num_places-eq (negsuc 1023) (omega arith, omega arith)

-- An array that held a number before.
abbrev stale_frame : Frame
stale_frame = record zero_frame { num = codes "12" ++ 0 ∷ 0 ∷ 0 ∷ [] }

unmarsh_server_id-stale_example :
    (marsh_server_id (pos 4) >>= λ (bytes, _). unmarsh_server_id stale_frame (bytes ++ []) (pos 0))
    ≡ some (1, pos 42)
unfolding show_int
unmarsh_server_id-stale_example =
    unmarsh_server_id-stale 4 2 (pos 0) stale_frame (0 ∷ 0 ∷ 0 ∷ []) [] (omega arith) (omega arith)
      (omega arith) refl refl

unmarshalling-long_string_example :
    (marsh_string (codes "longword" ++ 0 ∷ []) >>= λ (d, n).
    unmarshalling zero_frame (some (record { bytes = some (d ++ []); size = pos n })) (pos 0))
    ≡ none
unfolding show_int c_string
unmarshalling-long_string_example =
    unmarshalling-long_string (codes "longword" ++ 0 ∷ []) (codes "longword") zero_frame [] (pos 0)
      refl (ground arith) (omega arith) (ground arith) (omega arith)

abbrev twenty : Bytes
twenty = codes "abcdefghijklmnopqrst"
