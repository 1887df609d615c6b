-- ===== src/Game/Board.antt =====
-- The `GameBoard` of game.h and `initBoard` of game.c.
use snuffin.Libc.Print.{Bytes}
use snuffin.Structs.{Point}
use snuffin.Common.Int.{ltb_ℤ, pos, negsuc, ℤ}
use snuffin.Common.{
  set, none, not, length, ◌||◌, ◌>>=◌, ltb, get_elem?, some, if◌then◌else◌, Bool, Option, List, ℕ,
  replicate,
}

abbrev pub board_width : ℕ
board_width = 20

abbrev pub board_height : ℕ
board_height = 20

abbrev pub max_players : ℕ
max_players = 4

abbrev pub tail_char : ℕ
tail_char = b'-'

-- The pointers in `p_dir` and `p_pos` are set when a snake is loaded; until then they are wild, and
-- a use of one is undefined: `none`. No two of them point to the same `Point`.
pub record GameBoard : Type 0 where
  pub b_b : List Bytes
  pub g_b : List Bytes
  pub num_pl : ℕ
  pub p_def : List ℤ
  pub p_dir : List (Option Point)
  pub p_pos : List (Option Point)

-- `pDef`: no player, alive, lost.
abbrev pub absent : ℤ
absent = negsuc 0

abbrev pub alive : ℤ
alive = pos 0

abbrev pub lost : ℤ
lost = pos 1

-- The loops write each cell and each entry of `pDef` once. The board is kept in the global
-- `gameBoard` as well.
unfoldable pub init_board : GameBoard → GameBoard
init_board b = record b {
  b_b = replicate board_width (replicate board_height 0);
  g_b = replicate board_width (replicate board_height 0);
  p_def = replicate max_players absent;
}

-- An element of an array of four, as a pointer to a `Point` that was set.
unfoldable pub point_of : List (Option Point) → ℕ → Option Point
point_of ps i = get_elem? ps i >>= λ p. p

-- A write to one of four elements.
unfoldable pub assign {ℓ} : {A : Type ℓ} → List A → ℕ → A → Option (List A)
assign xs i v = if ltb i (length xs) then some (set xs i v) else none

-- `updateMovementDirection`, through the global `gameBoard`, null before the first `initBoard`.
unfoldable pub update_movement_direction : ℕ → Point → Option GameBoard → Option GameBoard
unfolding point_of assign
update_movement_direction n_player p none = none
update_movement_direction n_player p (some b) = do
  old ← point_of b.p_dir n_player
  dirs ← assign b.p_dir n_player (some p)
  some (record b { p_dir = dirs })

unfoldable pub out_of_board : Point → Bool
out_of_board p =
    ltb_ℤ p.x (pos 0)
    || not (ltb_ℤ p.x (pos board_width))
    || ltb_ℤ p.y (pos 0)
    || not (ltb_ℤ p.y (pos board_height))
