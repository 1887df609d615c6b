-- ===== src/Game/Invariant.antt =====
-- `updateBoard` keeps the invariant of the board, and what a tick does to the snakes.
use snuffin.Game.Moves.{poke-trail, Moved}
use snuffin.Game.Cells.{Inside, peek}
use snuffin.Common.Int.{◌+ℤ◌, ℤ}
use snuffin.Game.Valid.{point_of-set_ne, point_of-set_self, target, HasHead, IsValid}
use snuffin.Common.{
  ap, sym, inr, inl, get_lt, arith, ◌==◌, Bool-cases, length-set, ◌⊎◌, ◌∙◌, ◌≢◌, some, get_elem?,
  ◌≡◌, ℕ,
}
use snuffin.Game.Board.{lost, board_width, board_height, alive, tail_char, point_of, GameBoard}
use snuffin.Structs.{Point}

-- The cell ahead of the snake of player i is on the board.
abbrev pub HasRoom : GameBoard → ℕ → Type 0
HasRoom b i =
    (p d : Point)
    → point_of b.p_pos i ≡ some p
    → point_of b.p_dir i ≡ some d
    → Inside board_height board_width (p.y +ℤ d.y) (p.x +ℤ d.x)

-- Player i has had its turn.
pub record Played (b b' : GameBoard) (i : ℕ) : Type 0 where
  pub valid : IsValid b'
  pub trails : (y x : ℤ) → peek b.b_b y x ≡ some tail_char → peek b'.b_b y x ≡ some tail_char
  pub def_others : (j : ℕ) → i ≢ j → get_elem? b'.p_def j ≡ get_elem? b.p_def j
  pub def_self :
      (get_elem? b'.p_def i ≡ get_elem? b.p_def i)
      ⊎ ((get_elem? b.p_def i ≡ some alive) × (get_elem? b'.p_def i ≡ some lost))
  pub pos_others : (j : ℕ) → i ≢ j → point_of b'.p_pos j ≡ point_of b.p_pos j
  pub pos_self :
      (p d : Point)
      → get_elem? b'.p_def i ≡ some alive
      → point_of b.p_pos i ≡ some p
      → point_of b.p_dir i ≡ some d
      → point_of b'.p_pos i ≡ some (record { x = p.x +ℤ d.x; y = p.y +ℤ d.y })
  pub dirs : b'.p_dir ≡ b.p_dir
  pub players : b'.num_pl ≡ b.num_pl

-- A head that is neither moved nor stopped stays a head as long as trails stay.
pub keep_head :
    (b b' : GameBoard) (j : ℕ)
    → ((y x : ℤ) → peek b.b_b y x ≡ some tail_char → peek b'.b_b y x ≡ some tail_char)
    → point_of b'.p_pos j ≡ point_of b.p_pos j
    → point_of b'.p_dir j ≡ point_of b.p_dir j
    → HasHead b j
    → HasHead b' j
keep_head b b' j trails pos_same dirs h = record {
  head = h.head;
  dir = h.dir;
  head_eq = pos_same ∙ h.head_eq;
  dir_eq = dirs ∙ h.dir_eq;
  inside = h.inside;
  trail = trails h.head.y h.head.x h.trail;
}

module _ (b b' : GameBoard) (i : ℕ) (valid : IsValid b) (living : get_elem? b.p_def i ≡ some alive)
    (moved : Moved b b' i (target (valid.heads i living)))
    (room : Inside board_height board_width
      (target (valid.heads i living)).y
      (target (valid.heads i living)).x) where
  pub Moved-trails : (y x : ℤ) → peek b.b_b y x ≡ some tail_char → peek b'.b_b y x ≡ some tail_char
  Moved-trails y x e =
      poke-trail b.b_b b'.b_b (target (valid.heads i living)).y (target (valid.heads i living)).x y
        x moved.b_here moved.b_others e

  pub Moved-pos_self : point_of b'.p_pos i ≡ some (target (valid.heads i living))
  Moved-pos_self = rw (moved.position) (
      point_of-set_self b.p_pos i (target (valid.heads i living))
        (omega (arith, valid.def_size, valid.pos_size, get_lt b.p_def i living)))

  pub Moved-pos_others : (j : ℕ) → i ≢ j → point_of b'.p_pos j ≡ point_of b.p_pos j
  Moved-pos_others j ne =
      rw (moved.position) (point_of-set_ne b.p_pos i j (some (target (valid.heads i living))) ne)

  Moved-heads : (j : ℕ) → get_elem? b'.p_def j ≡ some alive → HasHead b' j
  Moved-heads j e = elim (Bool-cases (i == j)) [
    | inl same ↦
        let e' : j ≡ i = ground arith in
        rw (e') (record {
          head = target (valid.heads i living);
          dir = (valid.heads i living).dir;
          head_eq = Moved-pos_self;
          dir_eq = rw (moved.dirs) (valid.heads i living).dir_eq;
          inside = room;
          trail = moved.b_here;
        })
    | inr other ↦
        keep_head b b' j Moved-trails (Moved-pos_others j (ground arith))
          (ap (λ ds. point_of ds j) moved.dirs) (valid.heads j (rw (sym moved.defs) e))
  ]

  pub Moved-IsValid : IsValid b'
  Moved-IsValid = record {
    b_size = moved.b_size;
    g_size = moved.g_size;
    def_size = rw (moved.defs) valid.def_size;
    dir_size = rw (moved.dirs) valid.dir_size;
    pos_size = rw (moved.position) (length-set b.p_pos i _ ∙ valid.pos_size);
    heads = Moved-heads;
  }
