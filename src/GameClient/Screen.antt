-- ===== src/GameClient/Screen.antt =====
-- The screen of client.c: `printBoard`, `printPlayerColor`, `printLobby`. Output is the list of bytes
-- that `printf` writes; the clearing of the screen is left out.
use snuffin.Libc.Buffer.{c_string}
use snuffin.Structs.{Player, Board}
use snuffin.Common.Int.{pos, eqb_ℤ, pos_part, ℤ}
use snuffin.Common.{
  none, ◌+◌, get_elem?, zero, ◌>>=◌, some, suc, ◌==◌, codes, Option, [], if◌then◌else◌, ◌∷◌, Bool,
  ◌++◌, ℕ, List,
}
use snuffin.Libc.Print.{show_int, Bytes}

abbrev escape : Bytes → Bytes
escape s = 27 ∷ s

abbrev pub border_color : Bytes
border_color = escape (codes "[37;47m")

abbrev pub color_reset : Bytes
color_reset = escape (codes "[0m")

unfoldable pub print_player_color : ℕ → Bytes
print_player_color p_num =
    if p_num == 1
    then escape (codes "[31;41m") ++ (codes "aa" ++ color_reset)
    else if p_num == 2
    then escape (codes "[32;42m") ++ (codes "vv" ++ color_reset)
    else if p_num == 3
    then escape (codes "[34;44m") ++ (codes "cc" ++ color_reset)
    else if p_num == 4
    then escape (codes "[35;45m") ++ (codes "dd" ++ color_reset)
    else codes "  "

abbrev pub side : Bytes
side = border_color ++ (codes "|" ++ color_reset)

-- The border above and below, for each of `n` columns.
unfoldable pub print_border : ℕ → Bytes
print_border zero = []
print_border (suc n) = border_color ++ (codes "__" ++ color_reset) ++ print_border n

-- The cells of row i from column j on, of which `left` are left.
unfoldable pub print_cells : List Bytes → ℕ → ℕ → ℕ → Option Bytes
print_cells b i zero j = some []
print_cells b i (suc left) j = do
  row ← get_elem? b i
  c ← get_elem? row j
  rest ← print_cells b i left (j + 1)
  let first = if j == 0 then side else []
  some (first ++ (print_player_color c ++ rest))

unfoldable pub print_lines : Board → ℕ → ℕ → Option Bytes
unfolding print_border print_cells
print_lines b zero i = some []
print_lines b (suc left) i = do
  cells ← print_cells b.board i (pos_part b.columns) 0
  rest ← print_lines b left (i + 1)
  let above = if i == 0 then print_border (pos_part b.columns + 1) ++ b'\n' ∷ [] else []
  some (above ++ (cells ++ (side ++ b'\n' ∷ rest)))

-- Below, the border is as long as there are rows. The numbers are not negative.
unfoldable pub print_board : Board → Option Bytes
unfolding print_lines
print_board b = do
  lines ← print_lines b (pos_part b.rows) 0
  let head = codes "SNUFFIN " ++ (show_int b.rows ++ b' ' ∷ (show_int b.columns ++ b'\n' ∷ []))
  some (head ++ (lines ++ (print_border (pos_part b.rows + 1) ++ b'\n' ∷ [])))

-- A line of the table of players; `i` is the number of its place.
unfoldable pub print_seat : ℕ → Option Player → Option Bytes
unfolding print_player_color
print_seat i none = some (codes "\t   FREE\n\n")
print_seat i (some p) = do
  name ← c_string p.name
  let mark = if eqb_ℤ p.ready (pos 0) then codes "\t\t    " else codes "\t\t   x"
  some (
      codes "\t"
      ++ (print_player_color (i + 1)
          ++ (b' ' ∷ (name ++ (codes " \t    " ++ (show_int p.score ++ (mark ++ codes "\n\n")))))))

unfoldable pub print_seats : ℕ → List (Option Player) → Option Bytes
unfolding print_seat
print_seats i [] = some []
print_seats i (p ∷ ps) = do
  line ← print_seat i p
  rest ← print_seats (i + 1) ps
  some (line ++ rest)

unfoldable pub print_lobby : ℤ → Bool → List (Option Player) → Option Bytes
unfolding print_seats
print_lobby value ready players = do
  seats ← print_seats 0 players
  let head =
      codes "LOBBY NUMERO " ++ (show_int value ++ codes "\n\n\tJUGADOR \t PUNTAJE \t READY \t\n\n")
  let foot =
      if ready
      then codes " -PRESS <X> IF NOT READY\n\nESPERANDO A LOS OTROS JUGADORES\n\n"
      else codes " -PRESS <ENTER> WHEN READY\n\n -PRESS <X> TO EXIT\n\n"
  some (head ++ (seats ++ foot))
