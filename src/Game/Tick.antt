-- ===== src/Game/Tick.antt =====
-- `updateBoard` of game.c. A lost player is reported to the caller through `playerLost`, which is a
-- parameter here, on a state S that it may change.
use snuffin.Game.Cells.{poke, peek}
use snuffin.Common.Int.{eqb_ℤ, ◌+ℤ◌}
use snuffin.Structs.{Point}
use snuffin.Game.Board.{
  lost, assign, out_of_board, tail_char, alive, absent, point_of, max_players, GameBoard,
}
use snuffin.Common.{
  ◌||◌, ◌&&◌, ◌==◌, zero, not, ◌+◌, if◌then◌else◌, suc, get_elem?, ◌>>=◌, some, Option, ℕ,
}

module _ {S : Type 0} (player_lost : ℕ → S → Option S) where
  unfoldable pub lose_snake : ℕ → GameBoard → S → Option (GameBoard × S)
  lose_snake i b s = do
    s ← player_lost i s
    defs ← assign b.p_def i lost
    some (record b { p_def = defs }, s)

  unfoldable pub advance_snake : ℕ → Point → GameBoard → S → Option (GameBoard × S)
  advance_snake i target b s = do
    b_b ← poke b.b_b target.y target.x tail_char
    g_b ← poke b.g_b target.y target.x (i + 1)
    positions ← assign b.p_pos i (some target)
    some (record b { b_b = b_b; g_b = g_b; p_pos = positions }, s)

  -- The snake of player i, alive, loses or moves by its direction. The cell ahead is read first.
  unfoldable pub move_snake : ℕ → GameBoard → S → Option (GameBoard × S)
  unfolding lose_snake advance_snake
  move_snake i b s = do
    position ← point_of b.p_pos i
    dir ← point_of b.p_dir i
    let target : Point = record { x = position.x +ℤ dir.x; y = position.y +ℤ dir.y }
    ahead ← peek b.b_b target.y target.x
    let hit = ahead == tail_char || out_of_board position
    if hit then lose_snake i b s else advance_snake i target b s

  unfoldable pub update_player : ℕ → GameBoard → S → Option (GameBoard × S)
  unfolding move_snake
  update_player i b s = do
    d ← get_elem? b.p_def i
    if not (eqb_ℤ d absent) && eqb_ℤ d alive then move_snake i b s else some (b, s)

  -- `left` players are left from i on.
  unfoldable pub update_from : ℕ → ℕ → GameBoard → S → Option (GameBoard × S)
  unfolding update_player
  update_from zero i b s = some (b, s)
  update_from (suc left) i b s = do (b, s) ← update_player i b s; update_from left (i + 1) b s

  unfoldable pub update_board : GameBoard → S → Option (GameBoard × S)
  unfolding update_from
  update_board b s = update_from max_players 0 b s
