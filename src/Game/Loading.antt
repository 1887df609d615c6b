-- ===== src/Game/Loading.antt =====
-- `initBoard` and `loadSnake` make a board in play.
use snuffin.Game.Invariant.{keep_head}
use snuffin.Game.Moves.{poke-trail}
use snuffin.Game.Cells.{poke-Inside, peek, HasSize, Inside}
use snuffin.Libc.Print.{Bytes}
use snuffin.Game.Valid.{point_of-set_ne, point_of-set_self, HasHead, assign-set, IsValid}
use snuffin.Game.Board.{
  absent, init_board, max_players, tail_char, alive, board_width, board_height, GameBoard,
}
use snuffin.Common.Int.{eqb_ℤ, ℤ, ◌+ℤ◌}
use snuffin.Game.Load.{point_at, direction, draw_fuel, load_snake_number, draw, load_snake}
use snuffin.Common.{
  All, length-replicate, replicate, get_elem?-set_self, get_elem?-set_ne, inr, inl, ◌==◌,
  Bool-cases, ◌∙◌, length-set, length, set, ◌<◌, refl, subst, sym, zero, false, ◌≢◌, ◌&&◌, some,
  arith, ◌-◌, true, ◌≡◌, ◌≤◌, get_elem?, suc, ℕ, List,
}
use snuffin.Structs.{Point}

abbrev step : Point → Point → Point
step at dir = record { x = at.x +ℤ dir.x; y = at.y +ℤ dir.y }

-- From `at`, k steps by dir stay on the board and the last of them, and none before, ends in `end`.
abbrev Reaches : ℕ → Point → Point → Point → Type 0
Reaches zero dir at end = ⊥
Reaches (suc zero) dir at end =
    Inside board_height board_width (step at dir).y (step at dir).x × (step at dir ≡ end)
Reaches (suc (suc k)) dir at end =
    Inside board_height board_width (step at dir).y (step at dir).x
    × ((eqb_ℤ (step at dir).x end.x && eqb_ℤ (step at dir).y end.y) ≡ false)
    × Reaches (suc k) dir (step at dir) end

record Drawn (b b' g' : List Bytes) (end : Point) : Type 0 where
  pub b_size : HasSize board_height board_width b'
  pub g_size : HasSize board_height board_width g'
  pub trails : (y x : ℤ) → peek b y x ≡ some tail_char → peek b' y x ≡ some tail_char
  pub inside : Inside board_height board_width end.y end.x
  pub head : peek b' end.y end.x ≡ some tail_char

same_eqb : (a : ℤ) → eqb_ℤ a a ≡ true
same_eqb a = ground arith

-- The loop of `loadSnake` ends on fuel for its k rounds.
draw_lem :
    (k fuel : ℕ) (dir at end : Point) (n : ℕ) (b g : List Bytes)
    → k ≤ fuel
    → HasSize board_height board_width b
    → HasSize board_height board_width g
    → Reaches k dir at end
    → (b' : List Bytes) × (g' : List Bytes) × (draw fuel dir at end n (b, g) ≡ some (b', g'))
      × Drawn b b' g' end
unfolding draw
draw_lem zero fuel dir at end n b g h s t r = absurd r
draw_lem (suc k) zero dir at end n b g h s t r = absurd (omega (arith, h))
draw_lem (suc zero) (suc fuel) dir at end n b g h s t r =
    let here : Point = step at dir in
    let (b', e_b, s', here_b, others) =
      poke-Inside board_height board_width b s here.y here.x tail_char r.0 in
    let (g', e_g, t', _, _) = poke-Inside board_height board_width g t here.y here.x n r.0 in
    (
      b',
      g',
      rw (e_b, e_g, sym r.1, same_eqb here.x, same_eqb here.y) refl,
      subst (λ p. Drawn b b' g' p) r.1
          (record {
            b_size = s';
            g_size = t';
            trails = λ y x e. poke-trail b b' here.y here.x y x here_b others e;
            inside = r.0;
            head = here_b;
          }),
    )
draw_lem (suc (suc k)) (suc fuel) dir at end n b g h s t r =
    let here : Point = step at dir in
    let (b1, e_b, s', here_b, others) =
      poke-Inside board_height board_width b s here.y here.x tail_char r.0 in
    let (g1, e_g, t', _, _) = poke-Inside board_height board_width g t here.y here.x n r.0 in
    let (b', g', e, drawn) =
      draw_lem (suc k) fuel dir here end n b1 g1 (omega (arith, h)) s' t' r.2 in
    (
      b',
      g',
      rw (e_b, e_g, r.1) e,
      record {
        b_size = drawn.b_size;
        g_size = drawn.g_size;
        trails = λ y x e. drawn.trails y x (poke-trail b b1 here.y here.x y x here_b others e);
        inside = drawn.inside;
        head = drawn.head;
      },
    )

-- Snake n is on the board: the others are as they were.
pub record Loaded (b b' : GameBoard) (n : ℕ) : Type 0 where
  pub valid : IsValid b'
  pub living : get_elem? b'.p_def (n - 1) ≡ some alive
  pub others : (j : ℕ) → n - 1 ≢ j → get_elem? b'.p_def j ≡ get_elem? b.p_def j
  pub trails : (y x : ℤ) → peek b.b_b y x ≡ some tail_char → peek b'.b_b y x ≡ some tail_char

load_snake_lem :
    (k : ℕ) (start end : Point) (n : ℕ) (b : GameBoard)
    → IsValid b
    → k ≤ draw_fuel
    → Reaches k (direction start end) start end
    → n - 1 < max_players
    → (b' : GameBoard) × (load_snake start end n b ≡ some b') × Loaded b b' n
unfolding load_snake
load_snake_lem k start end n b valid fuel r l =
    let dir : Point = direction start end in
    let (bb, gb, e, drawn) =
      draw_lem k draw_fuel dir start end n b.b_b b.g_b fuel valid.b_size valid.g_size r in
    let b' : GameBoard = record b {
      b_b = bb;
      g_b = gb;
      p_pos = set b.p_pos (n - 1) (some end);
      p_dir = set b.p_dir (n - 1) (some dir);
      p_def = set b.p_def (n - 1) alive;
    } in
    let in_pos : n - 1 < length b.p_pos = omega (arith, l, valid.pos_size) in
    let in_dir : n - 1 < length b.p_dir = omega (arith, l, valid.dir_size) in
    let in_def : n - 1 < length b.p_def = omega (arith, l, valid.def_size) in
    (
      b',
      rw
          (
            e,
            assign-set b.p_pos (n - 1) (some end) in_pos,
            assign-set b.p_dir (n - 1) (some dir) in_dir,
            assign-set b.p_def (n - 1) alive in_def,
          )
          refl,
      record {
        valid = record {
          b_size = drawn.b_size;
          g_size = drawn.g_size;
          def_size = length-set b.p_def (n - 1) alive ∙ valid.def_size;
          dir_size = length-set b.p_dir (n - 1) (some dir) ∙ valid.dir_size;
          pos_size = length-set b.p_pos (n - 1) (some end) ∙ valid.pos_size;
          heads = λ j e_j. elim (Bool-cases (n - 1 == j)) [
            | inl same ↦
                let e' : n - 1 ≡ j = ground arith in
                subst (HasHead b') e' (record {
                  head = end;
                  dir = dir;
                  head_eq = point_of-set_self b.p_pos (n - 1) end in_pos;
                  dir_eq = point_of-set_self b.p_dir (n - 1) dir in_dir;
                  inside = drawn.inside;
                  trail = drawn.head;
                })
            | inr other ↦
                let ne : n - 1 ≢ j = ground arith in
                keep_head b b' j drawn.trails (point_of-set_ne b.p_pos (n - 1) j (some end) ne)
                  (point_of-set_ne b.p_dir (n - 1) j (some dir) ne)
                  (valid.heads j (sym (get_elem?-set_ne b.p_def (n - 1) j alive ne) ∙ e_j))
          ];
        };
        living = get_elem?-set_self b.p_def (n - 1) alive in_def;
        others = λ j ne. get_elem?-set_ne b.p_def (n - 1) j alive ne;
        trails = drawn.trails;
      },
    )

-- Each of the four snakes, loaded on a valid board, is drawn to its end within the fuel. The board
-- is valid again, the snake is alive, the other players are as before and the trails are kept.
pub load_snake_number-IsValid :
    (n : ℕ) (b : GameBoard)
    → 1 ≤ n
    → n ≤ max_players
    → IsValid b
    → (b' : GameBoard) × (load_snake_number n b ≡ some b') × Loaded b b' n
unfolding load_snake_number direction ◌+ℤ◌
load_snake_number-IsValid zero b h l valid = absurd (omega (arith, h))
load_snake_number-IsValid (suc zero) b h l valid =
    load_snake_lem 4 (point_at 19 10) (point_at 15 10) 1 b valid (omega arith) (ground arith)
      (omega arith)
load_snake_number-IsValid (suc (suc zero)) b h l valid =
    load_snake_lem 4 (point_at 1 10) (point_at 5 10) 2 b valid (omega arith) (ground arith)
      (omega arith)
load_snake_number-IsValid (suc (suc (suc zero))) b h l valid =
    load_snake_lem 4 (point_at 10 1) (point_at 10 5) 3 b valid (omega arith) (ground arith)
      (omega arith)
load_snake_number-IsValid (suc (suc (suc (suc zero)))) b h l valid =
    load_snake_lem 4 (point_at 10 19) (point_at 10 15) 4 b valid (omega arith) (ground arith)
      (omega arith)
load_snake_number-IsValid (suc (suc (suc (suc (suc n))))) b h l valid = absurd (omega (arith, l))

nobody : (j : ℕ) → get_elem? (replicate max_players absent) j ≢ some alive
nobody zero e = cc
nobody (suc zero) e = cc
nobody (suc (suc zero)) e = cc
nobody (suc (suc (suc zero))) e = cc
nobody (suc (suc (suc (suc j)))) e = cc

rows : (h w : ℕ) → All (λ (row : Bytes). length row ≡ w) (replicate h (replicate w 0))
rows zero w = tt
rows (suc h) w = (length-replicate w 0, rows h w)

all_rows : (h w : ℕ) → HasSize h w (replicate h (replicate w 0))
all_rows h w = (length-replicate h _, rows h w)

-- `initBoard` on any `GameBoard` with its arrays of four gives a valid board without players.
pub init_board-IsValid :
    (b : GameBoard)
    → length b.p_dir ≡ max_players
    → length b.p_pos ≡ max_players
    → IsValid (init_board b) × ((j : ℕ) → get_elem? (init_board b).p_def j ≢ some alive)
unfolding init_board
init_board-IsValid b dirs positions = (
  record {
    b_size = all_rows board_height board_width;
    g_size = all_rows board_height board_width;
    def_size = refl;
    dir_size = dirs;
    pos_size = positions;
    heads = λ j e. absurd (nobody j e);
  },
  nobody,
)
