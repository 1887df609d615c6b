-- ===== src/Game/Print.antt =====
-- The colours and the printed board of game.c. Output is the list of bytes that `printf` writes.
use snuffin.Game.Board.{board_height, board_width}
use snuffin.Common.{
  zero, ◌+◌, get_elem?, suc, [], ◌++◌, ◌==◌, some, ◌>>=◌, ◌∷◌, codes, if◌then◌else◌, Option, List,
  ℕ,
}
use snuffin.Libc.Print.{Bytes}

abbrev escape : Bytes → Bytes
escape s = 27 ∷ s

abbrev pub player1_color : Bytes
player1_color = escape (codes "[31;41m")

abbrev pub player2_color : Bytes
player2_color = escape (codes "[32;42m")

abbrev pub player3_color : Bytes
player3_color = escape (codes "[34;44m")

abbrev pub player4_color : Bytes
player4_color = escape (codes "[35;45m")

abbrev pub color_reset : Bytes
color_reset = escape (codes "[0m")

unfoldable pub get_player_color : ℕ → Bytes
get_player_color p_num =
    if p_num == 1
    then player1_color
    else if p_num == 2
    then player2_color
    else if p_num == 3
    then player3_color
    else if p_num == 4
    then player4_color
    else color_reset

unfoldable pub print_player_color : ℕ → Bytes
print_player_color p_num =
    if p_num == 1
    then player1_color ++ codes "aa" ++ color_reset
    else if p_num == 2
    then player2_color ++ codes "vv" ++ color_reset
    else if p_num == 3
    then player3_color ++ codes "cc" ++ color_reset
    else if p_num == 4
    then player4_color ++ codes "dd" ++ color_reset
    else codes "  "

-- A row of `left` cells from column j on.
print_row : ℕ → ℕ → Bytes → Option Bytes
print_row zero j row = some []
print_row (suc left) j row = do
  c ← get_elem? row j
  rest ← print_row left (j + 1) row
  some (print_player_color c ++ rest)

print_rows : ℕ → ℕ → List Bytes → Option Bytes
unfolding print_row
print_rows zero i b = some []
print_rows (suc left) i b = do
  row ← get_elem? b i
  line ← print_row board_height 0 row
  rest ← print_rows left (i + 1) b
  some (line ++ 10 ∷ rest)

unfoldable pub print_board : List Bytes → Option Bytes
unfolding print_rows print_player_color
print_board b = do rows ← print_rows board_width 0 b; some (codes "Start\n" ++ rows)
