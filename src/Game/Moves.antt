-- ===== src/Game/Moves.antt =====
-- One snake's move in `updateBoard`, on every branch, and the tick of all four.
use snuffin.Structs.{Point}
use snuffin.Game.Tick.{advance_snake, lose_snake, move_snake}
use snuffin.Game.Valid.{assign-set, Inside-out_of_board, target, HasHead, IsValid}
use snuffin.Game.Cells.{poke-Inside, peek-Outside, HasSize, Outside, Inside, peek}
use snuffin.Common.Int.{eqb_ℤ_cases, ℤ}
use snuffin.Game.Board.{board_width, lost, board_height, max_players, alive, tail_char, GameBoard}
use snuffin.Libc.Print.{Bytes}
use snuffin.Common.{
  refl, ==_ne, none, ◌+◌, set, ◌∙◌, inl, get_lt, inr, ◌==◌, arith, if◌then◌else◌, ◌⊎◌, ◌<◌, ◌≢◌,
  some, ◌≡◌, get_elem?, Option, ℕ, List,
}

-- A cell of a trail stays one under a write of a trail's cell.
pub poke-trail :
    (g g' : List Bytes) (y x y' x' : ℤ)
    → peek g' y x ≡ some tail_char
    → ((v u : ℤ) → (v ≢ y) ⊎ (u ≢ x) → peek g' v u ≡ peek g v u)
    → peek g y' x' ≡ some tail_char
    → peek g' y' x' ≡ some tail_char
poke-trail g g' y x y' x' written others trail = elim (eqb_ℤ_cases y' y) [
  | inr ne ↦ others y' x' (inl ne) ∙ trail
  | inl ey ↦ elim (eqb_ℤ_cases x' x) [
    | inr ne ↦ others y' x' (inr ne) ∙ trail
    | inl ex ↦ rw (ey, ex) written
  ]
]

-- One snake has moved to its target t: the cell is marked in both arrays, and nothing else of the
-- board has changed but the head's position.
pub record Moved (b b' : GameBoard) (i : ℕ) (t : Point) : Type 0 where
  pub b_size : HasSize board_height board_width b'.b_b
  pub g_size : HasSize board_height board_width b'.g_b
  pub b_here : peek b'.b_b t.y t.x ≡ some tail_char
  pub g_here : peek b'.g_b t.y t.x ≡ some (i + 1)
  pub b_others : (y x : ℤ) → (y ≢ t.y) ⊎ (x ≢ t.x) → peek b'.b_b y x ≡ peek b.b_b y x
  pub g_others : (y x : ℤ) → (y ≢ t.y) ⊎ (x ≢ t.x) → peek b'.g_b y x ≡ peek b.g_b y x
  pub position : b'.p_pos ≡ set b.p_pos i (some t)
  pub defs : b'.p_def ≡ b.p_def
  pub dirs : b'.p_dir ≡ b.p_dir
  pub players : b'.num_pl ≡ b.num_pl

module _ {S : Type 0} (player_lost : ℕ → S → Option S) (b : GameBoard) (i : ℕ) (s : S)
    (valid : IsValid b) (living : get_elem? b.p_def i ≡ some alive) where
  abbrev pub head_here : HasHead b i
  head_here = valid.heads i living

  in_play : i < max_players
  in_play = omega (arith, valid.def_size, get_lt b.p_def i living)

  -- A move is decided by the cell ahead.
  move_snake-ahead :
      (c : ℕ)
      → peek b.b_b (target head_here).y (target head_here).x ≡ some c
      → move_snake player_lost i b s ≡ (
          if c == tail_char
          then lose_snake player_lost i b s
          else advance_snake player_lost i (target head_here) b s)
  unfolding move_snake
  move_snake-ahead c e =
      rw
        (
          head_here.head_eq,
          head_here.dir_eq,
          e,
          Inside-out_of_board head_here.head head_here.inside,
        )
        (ground arith)

  -- On a valid board, a living head whose next cell is not on the board is not stopped: that cell is
  -- accessed outside of the array.
  pub move_snake-Outside :
      Outside board_height board_width (target head_here).y (target head_here).x
      → move_snake player_lost i b s ≡ none
  unfolding move_snake
  move_snake-Outside out = rw (
    head_here.head_eq,
    head_here.dir_eq,
    peek-Outside board_height board_width b.b_b valid.b_size (target head_here).y
        (target head_here).x out,
  )

  -- On a valid board, a living head that meets a trail is reported, by a `playerLost` that returns,
  -- and loses; the cells stay as they are.
  pub move_snake-hit :
      {s' : S}
      → peek b.b_b (target head_here).y (target head_here).x ≡ some tail_char
      → player_lost i s ≡ some s'
      → move_snake player_lost i b s ≡ some (record b { p_def = set b.p_def i lost }, s')
  unfolding lose_snake
  move_snake-hit e report = rw (
    move_snake-ahead tail_char e,
    report,
    assign-set b.p_def i lost (omega (arith, in_play, valid.def_size)),
  )

  -- On a valid board, a living head with a free cell of the board ahead moves there and marks it in
  -- both arrays; no other cell, player or direction changes.
  pub move_snake-free :
      (c : ℕ)
      → Inside board_height board_width (target head_here).y (target head_here).x
      → peek b.b_b (target head_here).y (target head_here).x ≡ some c
      → c ≢ tail_char
      → (b' : GameBoard) × (move_snake player_lost i b s ≡ some (b', s))
        × Moved b b' i (target head_here)
  unfolding advance_snake
  move_snake-free c inside e free =
      let t = target head_here in
      let (bb, eb, sb, here_b, other_b) =
        poke-Inside board_height board_width b.b_b valid.b_size t.y t.x tail_char inside in
      let (gb, eg, sg, here_g, other_g) =
        poke-Inside board_height board_width b.g_b valid.g_size t.y t.x (i + 1) inside in
      let path : List (Option Point) = set b.p_pos i (some t) in
      (
        record b { b_b = bb; g_b = gb; p_pos = path },
        rw (
          move_snake-ahead c e,
          ==_ne c tail_char free,
          eb,
          eg,
          assign-set b.p_pos i (some t) (omega (arith, in_play, valid.pos_size)),
        ),
        record {
          b_size = sb;
          g_size = sg;
          b_here = here_b;
          g_here = here_g;
          b_others = other_b;
          g_others = other_g;
          position = refl;
          defs = refl;
          dirs = refl;
          players = refl;
        },
      )
