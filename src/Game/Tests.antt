-- ===== src/Game/Tests.antt =====
-- The theorems on game.c at concrete inputs.
use snuffin.Game.Moves.{move_snake-Outside}
use snuffin.Game.Invariant.{HasRoom}
use snuffin.Game.Ticks.{update_board-IsValid, Ticked}
use snuffin.Game.Tick.{move_snake, update_board}
use snuffin.Libc.Print.{Bytes}
use snuffin.Common.Int.{pos, ◌+ℤ◌}
use snuffin.Game.Load.{point_at}
use snuffin.Game.Cells.{Inside, HasSize, peek}
use snuffin.Common.{
  zero, subst, suc, [], refl, ◌∷◌, none, ◌+◌, ◌≡◌, some, set, arith, replicate, get_elem?, Option,
  ℕ, List,
}
use snuffin.Game.Valid.{HasHead, IsValid}
use snuffin.Structs.{Point}
use snuffin.Game.Board.{max_players, absent, tail_char, alive, point_of, GameBoard}
use mathlib.Core.Option.{some-injective}

abbrev empty_grid : List Bytes
empty_grid = replicate 20 (replicate 20 0)

-- A trail of one cell, in row 10 and column 10.
abbrev dot_grid : List Bytes
dot_grid = set empty_grid 10 (set (replicate 20 0) 10 tail_char)

abbrev full_grid : List Bytes
full_grid = replicate 20 (replicate 20 tail_char)

abbrev uninit : GameBoard
uninit = record {
  b_b = empty_grid;
  g_b = empty_grid;
  num_pl = 0;
  p_def = replicate 4 (pos 7);
  p_dir = replicate 4 none;
  p_pos = replicate 4 none;
}

-- One living snake.
abbrev lone : List Bytes → Point → Point → GameBoard
lone g p d = record {
  b_b = g;
  g_b = empty_grid;
  num_pl = 1;
  p_def = alive ∷ absent ∷ absent ∷ absent ∷ [];
  p_dir = some d ∷ none ∷ none ∷ none ∷ [];
  p_pos = some p ∷ none ∷ none ∷ none ∷ [];
}

only_first :
    (P : ℕ → Type 0)
    → P 0
    → (j : ℕ) → get_elem? (alive ∷ absent ∷ absent ∷ absent ∷ []) j ≡ some alive
    → P j
only_first P p zero e = p
only_first P p (suc zero) e = cc
only_first P p (suc (suc zero)) e = cc
only_first P p (suc (suc (suc zero))) e = cc
only_first P p (suc (suc (suc (suc j)))) e = cc

lone-IsValid :
    (g : List Bytes) (p d : Point)
    → HasSize 20 20 g
    → Inside 20 20 p.y p.x
    → peek g p.y p.x ≡ some tail_char
    → IsValid (lone g p d)
unfolding point_of
lone-IsValid g p d size inside trail = record {
  b_size = size;
  g_size = ground arith;
  def_size = refl;
  dir_size = refl;
  pos_size = refl;
  heads = λ j e.
      only_first (HasHead (lone g p d))
        (record {
          head = p;
          dir = d;
          head_eq = refl;
          dir_eq = refl;
          inside = inside;
          trail = trail;
        })
        j e;
}

abbrev middle : Point
middle = point_at 10 10

abbrev right : Point
right = point_at 1 0

abbrev corner : Point
corner = point_at 19 10

abbrev dot_board : GameBoard
dot_board = lone dot_grid middle right

dot_board-IsValid : IsValid dot_board
unfolding peek
dot_board-IsValid = lone-IsValid dot_grid middle right (ground arith) (ground arith) refl

-- `playerLost` that counts.
abbrev counts : ℕ → ℕ → Option ℕ
counts i s = some (s + 1)

update_board-IsValid_example :
    (b' : GameBoard) × (s' : ℕ) × (update_board counts dot_board 0 ≡ some (b', s'))
    × Ticked dot_board b' 0 max_players
unfolding point_of ◌+ℤ◌
update_board-IsValid_example =
    update_board-IsValid counts (λ i s h. (s + 1, refl)) dot_board 0 dot_board-IsValid
      (only_first (HasRoom dot_board) (λ p d e_p e_d.
        subst (λ q. Inside 20 20 (q.y +ℤ d.y) (q.x +ℤ d.x)) (some-injective middle p e_p)
          (subst (λ q. Inside 20 20 (middle.y +ℤ q.y) (middle.x +ℤ q.x))
            (some-injective right d e_d) (ground arith))))

abbrev edge_board : GameBoard
edge_board = lone full_grid corner right

edge_board-IsValid : IsValid edge_board
unfolding peek
edge_board-IsValid = lone-IsValid full_grid corner right (ground arith) (ground arith) refl

move_snake-Outside_example : move_snake counts 0 edge_board 0 ≡ none
unfolding ◌+ℤ◌ peek edge_board-IsValid lone-IsValid only_first
move_snake-Outside_example =
    move_snake-Outside counts edge_board 0 0 edge_board-IsValid refl (ground arith)

abbrev full_board : GameBoard
full_board = lone full_grid middle right

full_board-IsValid : IsValid full_board
unfolding peek
full_board-IsValid = lone-IsValid full_grid middle right (ground arith) (ground arith) refl
