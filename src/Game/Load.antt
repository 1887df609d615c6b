-- ===== src/Game/Load.antt =====
-- `loadSnake` and `loadSnakeNumber` of game.c.
use snuffin.Game.Cells.{poke}
use snuffin.Libc.Print.{Bytes}
use snuffin.Game.Board.{tail_char, alive, board_height, board_width, assign, GameBoard}
use snuffin.Common.Int.{◌+ℤ◌, negsuc, ltb_ℤ, eqb_ℤ, pos}
use snuffin.Common.{
  zero, ◌&&◌, some, ◌-◌, ◌/◌, suc, ◌>>=◌, none, ◌==◌, Option, if◌then◌else◌, List, ℕ,
}
use snuffin.Structs.{Point}

-- The direction from a point to another on the same column or row; none otherwise, where the code
-- prints a message and goes on with (0, 0).
unfoldable pub direction : Point → Point → Point
direction start end =
    if eqb_ℤ start.x end.x
    then record { x = pos 0; y = if ltb_ℤ start.y end.y then pos 1 else negsuc 0 }
    else if eqb_ℤ start.y end.y
    then record { x = if ltb_ℤ start.x end.x then pos 1 else negsuc 0; y = pos 0 }
    else record { x = pos 0; y = pos 0 }

-- The do-while loop, on fuel. `at` is the point start + (px, py), which the body moves first; the
-- loop ends when it has reached `end`.
unfoldable pub draw :
    ℕ → Point → Point → Point → ℕ → List Bytes × List Bytes → Option (List Bytes × List Bytes)
draw zero dir at end p_num (b_b, g_b) = none
draw (suc fuel) dir at end p_num (b_b, g_b) =
    let here : Point = record { x = at.x +ℤ dir.x; y = at.y +ℤ dir.y } in
    let rest = λ (b : List Bytes) (g : List Bytes). draw fuel dir here end p_num (b, g) in
    poke b_b here.y here.x tail_char >>= λ b. poke g_b here.y here.x p_num >>= λ g.
    if eqb_ℤ here.x end.x && eqb_ℤ here.y end.y then some (b, g) else rest b g

-- Twenty rounds are enough on a board of twenty rows and columns.
abbrev pub draw_fuel : ℕ
draw_fuel = 20

unfoldable pub load_snake : Point → Point → ℕ → GameBoard → Option GameBoard
load_snake start end p_num b = do
  let dir = direction start end
  (b_b, g_b) ← draw draw_fuel dir start end p_num (b.b_b, b.g_b)
  positions ← assign b.p_pos (p_num - 1) (some end)
  dirs ← assign b.p_dir (p_num - 1) (some dir)
  defs ← assign b.p_def (p_num - 1) alive
  some (record b { b_b = b_b; g_b = g_b; p_pos = positions; p_dir = dirs; p_def = defs })

abbrev pub point_at : ℕ → ℕ → Point
point_at x y = record { x = pos x; y = pos y }

unfoldable pub load_snake_number : ℕ → GameBoard → Option GameBoard
load_snake_number n_snake b =
    if n_snake == 4
    then load_snake (point_at (board_width / 2) (board_height - 1))
        (point_at (board_width / 2) (board_height - 5)) 4 b
    else if n_snake == 3
    then load_snake (point_at (board_width / 2) 1) (point_at (board_width / 2) 5) 3 b
    else if n_snake == 2
    then load_snake (point_at 1 (board_height / 2)) (point_at 5 (board_height / 2)) 2 b
    else if n_snake == 1
    then load_snake (point_at (board_width - 1) (board_height / 2))
        (point_at (board_width - 5) (board_height / 2)) 1 b
    else some b
