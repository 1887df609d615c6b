-- ===== src/GameClient/Render.antt =====
-- What `printBoard` of client.c shows of a square board.
use snuffin.Common.Int.{pos}
use snuffin.Marshalling.Grid.Shape.{square, IsRow, IsSquare}
use snuffin.Libc.Print.{show_int, Bytes}
use snuffin.GameClient.Screen.{
  print_board, print_player_color, side, print_border, print_cells, print_lines,
}
use snuffin.Common.{
  false, ◌==◌, append_assoc, refl, subst, ap, sym, length-append, arith, suc, ◌∙◌, get_middle, [],
  length, some, ◌++◌, ◌≡◌, ◌+◌, ◌<◌, codes, get_elem?, ◌∷◌, All, List, ℕ,
}

abbrev pub cells : Bytes → Bytes
cells [] = []
cells (c ∷ row) = print_player_color c ++ cells row

-- A line for each row, between two sides.
abbrev pub all_lines : List Bytes → Bytes
all_lines [] = []
all_lines (row ∷ rows) = (side ++ cells row) ++ (side ++ b'\n' ∷ all_lines rows)

abbrev pub border_line : ℕ → Bytes
border_line n = print_border (n + 1) ++ b'\n' ∷ []

-- A head with the two sizes, and the lines between two borders.
abbrev pub rendered : ℕ → List Bytes → Bytes
rendered n rows =
    (codes "SNUFFIN " ++ (show_int (pos n) ++ b' ' ∷ (show_int (pos n) ++ b'\n' ∷ [])))
    ++ ((border_line n ++ all_lines rows) ++ border_line n)

print_cells_rest :
    (b : List Bytes) (i : ℕ) (pre row : Bytes)
    → get_elem? b i ≡ some (pre ++ row)
    → 0 < length pre
    → print_cells b i (length row) (length pre) ≡ some (cells row)
unfolding print_cells
print_cells_rest b i pre [] here some_left = refl
print_cells_rest b i pre (c ∷ row) here some_left =
    let next =
      print_cells_rest b i (pre ++ c ∷ []) row
        (here ∙ ap some (sym (append_assoc pre (c ∷ []) row)))
        (omega (arith, length-append pre (c ∷ []))) in
    let place : length (pre ++ c ∷ []) ≡ length pre + 1 = length-append pre (c ∷ []) in
    let next' = (rw (place) at next) in
    let later : (length pre == 0) ≡ false = ground (arith, some_left) in
    rw (here, get_middle pre c row, next', later) refl

print_cells_lem :
    (b : List Bytes) (i : ℕ) (c : ℕ) (row : Bytes)
    → get_elem? b i ≡ some (c ∷ row)
    → print_cells b i (suc (length row)) 0 ≡ some (side ++ cells (c ∷ row))
unfolding print_cells
print_cells_lem b i c row here =
    let next = print_cells_rest b i (c ∷ []) row here (omega arith) in rw (here, next) refl

print_line :
    (n i : ℕ) (b : List Bytes) (row : Bytes)
    → get_elem? b i ≡ some row
    → length row ≡ n
    → 0 < n
    → print_cells b i n 0 ≡ some (side ++ cells row)
print_line n i b [] here size some_left = absurd (omega (arith, size, some_left))
print_line n i b (c ∷ row) here size some_left =
    subst (λ m. print_cells b i m 0 ≡ some (side ++ cells (c ∷ row))) size
      (print_cells_lem b i c row here)

print_lines_rest :
    (n : ℕ) (pre rows : List Bytes)
    → All (IsRow n) rows
    → 0 < n
    → 0 < length pre
    → print_lines (square n (pre ++ rows)) (length rows) (length pre) ≡ some (all_lines rows)
unfolding print_lines
print_lines_rest n pre [] all some_column later = refl
print_lines_rest n pre (row ∷ rows) all some_column later =
    let here : get_elem? (pre ++ row ∷ rows) (length pre) ≡ some row = get_middle pre row rows in
    let line = print_line n (length pre) (pre ++ row ∷ rows) row here all.0.0 some_column in
    let next =
      print_lines_rest n (pre ++ row ∷ []) rows all.1 some_column
        (omega (arith, length-append pre (row ∷ []))) in
    let place : length (pre ++ row ∷ []) ≡ length pre + 1 = length-append pre (row ∷ []) in
    let next' = (rw (place, append_assoc pre (row ∷ []) rows) at next) in
    let not_first : (length pre == 0) ≡ false = ground (arith, later) in
    rw (line, next', not_first) refl

print_lines_first :
    (n : ℕ) (row : Bytes) (rows : List Bytes)
    → All (IsRow n) (row ∷ rows)
    → 0 < n
    → print_lines (square n (row ∷ rows)) (suc (length rows)) 0
      ≡ some (border_line n ++ all_lines (row ∷ rows))
unfolding print_lines
print_lines_first n row rows all some_column =
    let line = print_line n 0 (row ∷ rows) row refl all.0.0 some_column in
    let next = print_lines_rest n (row ∷ []) rows all.1 some_column (omega arith) in
    rw (line, next) refl

-- `printBoard` shows a square board with a row at least as it stands: a head, and each row's cells
-- in order, inside of a border.
pub print_board_lem :
    (n : ℕ) (rows : List Bytes)
    → IsSquare n rows
    → 0 < n
    → print_board (square n rows) ≡ some (rendered n rows)
unfolding print_board
print_board_lem n [] (size, all) some_row = absurd (omega (arith, size, some_row))
print_board_lem n (row ∷ rows) (size, all) some_row =
    let shown : print_lines (square n (row ∷ rows)) n 0
        ≡ some (border_line n ++ all_lines (row ∷ rows)) =
      subst
        (λ m.
          print_lines (square n (row ∷ rows)) m 0 ≡ some (border_line n ++ all_lines (row ∷ rows)))
        size (print_lines_first n row rows all some_row) in
    rw (shown) refl
