-- ===== src/Game/Valid.antt =====
-- The invariant of a board in play, and how writes keep it.
use snuffin.Common.Int.{◌+ℤ◌}
use snuffin.Structs.{Point}
use snuffin.Common.{
  get_elem?-set_self, get_elem?-set_ne, arith, get_elem?, set, false, true, ◌≢◌, length, some,
  Option, ◌<◌, ◌≡◌, List, ℕ,
}
use snuffin.Game.Cells.{peek, Outside, Inside, HasSize}
use snuffin.Game.Board.{
  alive, tail_char, max_players, board_width, board_height, point_of, GameBoard, out_of_board,
  assign,
}

-- The snake of player i: its head is inside the board, on a cell of its own trail.
pub record HasHead (b : GameBoard) (i : ℕ) : Type 0 where
  pub head : Point
  pub dir : Point
  pub head_eq : point_of b.p_pos i ≡ some head
  pub dir_eq : point_of b.p_dir i ≡ some dir
  pub inside : Inside board_height board_width head.y head.x
  pub trail : peek b.b_b head.y head.x ≡ some tail_char

pub record IsValid (b : GameBoard) : Type 0 where
  pub b_size : HasSize board_height board_width b.b_b
  pub g_size : HasSize board_height board_width b.g_b
  pub def_size : length b.p_def ≡ max_players
  pub dir_size : length b.p_dir ≡ max_players
  pub pos_size : length b.p_pos ≡ max_players
  pub heads : (i : ℕ) → get_elem? b.p_def i ≡ some alive → HasHead b i

-- Where the head goes next.
abbrev pub target : {b : GameBoard} {i : ℕ} → HasHead b i → Point
target h = record { x = h.head.x +ℤ h.dir.x; y = h.head.y +ℤ h.dir.y }

pub assign-set {ℓ} :
    {A : Type ℓ} (xs : List A) (i : ℕ) (v : A) → i < length xs → assign xs i v ≡ some (set xs i v)
unfolding assign
assign-set xs i v h = ground arith

pub point_of-set_self :
    (ps : List (Option Point)) (i : ℕ) (p : Point)
    → i < length ps
    → point_of (set ps i (some p)) i ≡ some p
unfolding point_of
point_of-set_self ps i p h = rw (get_elem?-set_self ps i (some p) h)

pub point_of-set_ne :
    (ps : List (Option Point)) (i j : ℕ) (p : Option Point)
    → i ≢ j
    → point_of (set ps i p) j ≡ point_of ps j
unfolding point_of
point_of-set_ne ps i j p h = rw (get_elem?-set_ne ps i j p h)

pub Inside-out_of_board :
    (p : Point) → Inside board_height board_width p.y p.x → out_of_board p ≡ false
unfolding out_of_board
Inside-out_of_board p h = ground arith

-- The bound tests of `outOfBoard` are exactly the bounds of the array.
pub Outside-out_of_board :
    (p : Point) → Outside board_height board_width p.y p.x → out_of_board p ≡ true
unfolding out_of_board
Outside-out_of_board p h = ground arith
