-- ===== src/Game/Ticks.antt =====
-- The tick of all players, and the boards that a game goes through.
use snuffin.Structs.{Point}
use snuffin.Game.Update.{update_player_lem}
use snuffin.Game.Tick.{update_board, update_from}
use snuffin.Game.Cells.{peek}
use snuffin.Game.Invariant.{HasRoom, Played}
use snuffin.Common.Int.{◌+ℤ◌, ℤ}
use snuffin.Game.Valid.{IsValid}
use snuffin.Common.{
  refl, zero, inr, subst, suc, ◌==◌, ◌∙◌, ◌≤◌, arith, sym, inl, Bool-cases, ◌+◌, some, ◌⊎◌, ◌≡◌,
  get_elem?, ◌≢◌, ◌<◌, Option, ℕ,
}
use snuffin.Game.Board.{point_of, lost, tail_char, alive, max_players, GameBoard}

-- What the turns of the players from i to n leave of a board: trails, directions and lost players
-- stay, and a snake that had its turn and is still alive has moved by its direction.
pub record Ticked (b b' : GameBoard) (i n : ℕ) : Type 0 where
  pub valid : IsValid b'
  pub trails : (y x : ℤ) → peek b.b_b y x ≡ some tail_char → peek b'.b_b y x ≡ some tail_char
  pub fates :
      (j : ℕ)
      → (get_elem? b'.p_def j ≡ get_elem? b.p_def j)
        ⊎ ((get_elem? b.p_def j ≡ some alive) × (get_elem? b'.p_def j ≡ some lost))
  pub dirs : b'.p_dir ≡ b.p_dir
  pub players : b'.num_pl ≡ b.num_pl
  pub kept : (j : ℕ) → j < i → point_of b'.p_pos j ≡ point_of b.p_pos j
  pub moved :
      (j : ℕ) (p d : Point)
      → i ≤ j
      → j < n
      → get_elem? b'.p_def j ≡ some alive
      → point_of b.p_pos j ≡ some p
      → point_of b.p_dir j ≡ some d
      → point_of b'.p_pos j ≡ some (record { x = p.x +ℤ d.x; y = p.y +ℤ d.y })

lost_then :
    (x y z : Option ℤ)
    → (y ≡ x) ⊎ ((x ≡ some alive) × (y ≡ some lost))
    → (z ≡ y) ⊎ ((y ≡ some alive) × (z ≡ some lost))
    → (z ≡ x) ⊎ ((x ≡ some alive) × (z ≡ some lost))
lost_then x y z (inl e) (inl f) = inl (f ∙ e)
lost_then x y z (inl e) (inr (f, g)) = inr (sym e ∙ f, g)
lost_then x y z (inr (e, e')) (inl f) = inr (e, f ∙ e')
lost_then x y z (inr (e, e')) (inr (f, g)) = inr (e, g)

alive_before :
    {x y : Option ℤ}
    → (y ≡ x) ⊎ ((x ≡ some alive) × (y ≡ some lost))
    → y ≡ some alive
    → x ≡ some alive
alive_before (inl e) living = sym e ∙ living
alive_before (inr (f, g)) living = f

fate :
    {b b' : GameBoard} {i : ℕ}
    → Played b b' i
    → (j : ℕ)
    → (get_elem? b'.p_def j ≡ get_elem? b.p_def j)
      ⊎ ((get_elem? b.p_def j ≡ some alive) × (get_elem? b'.p_def j ≡ some lost))
fate {b} {b'} {i} played j = elim (Bool-cases (i == j)) [
  | inl same ↦
      let e : i ≡ j = ground arith in
      subst
        (λ k.
          (get_elem? b'.p_def k ≡ get_elem? b.p_def k)
          ⊎ ((get_elem? b.p_def k ≡ some alive) × (get_elem? b'.p_def k ≡ some lost)))
        e played.def_self
  | inr other ↦ inl (played.def_others j (ground arith))
]

-- A player whose turn is still to come has the same room.
room_later :
    {b b' : GameBoard} {i : ℕ}
    → Played b b' i
    → (j : ℕ) → i ≢ j
    → (get_elem? b.p_def j ≡ some alive → HasRoom b j)
    → get_elem? b'.p_def j ≡ some alive
    → HasRoom b' j
room_later {b} {b'} {i} played j ne room living p d e_p e_d =
    room (sym (played.def_others j ne) ∙ living) p d (sym (played.pos_others j ne) ∙ e_p)
      (subst (λ ds. point_of ds j ≡ some d) played.dirs e_d)

module _ {S : Type 0} (player_lost : ℕ → S → Option S)
    (reports : (i : ℕ) (s : S) → i < max_players → (s' : S) × (player_lost i s ≡ some s')) where
  turns :
      (left i : ℕ) (b : GameBoard) (s : S)
      → left + i ≤ max_players
      → IsValid b
      → ((j : ℕ) → i ≤ j → get_elem? b.p_def j ≡ some alive → HasRoom b j)
      → (b' : GameBoard) × (s' : S) × (update_from player_lost left i b s ≡ some (b', s'))
        × Ticked b b' i (left + i)
  unfolding update_from
  turns zero i b s k valid room = (
    b,
    s,
    refl,
    record {
      valid = valid;
      trails = λ y x e. e;
      fates = λ j. inl refl;
      dirs = refl;
      players = refl;
      kept = λ j l. refl;
      moved = λ j p d l u. absurd (omega (arith, l, u));
    },
  )
  turns (suc left) i b s k valid room =
      let (b1, s1, e1, played) =
        update_player_lem player_lost reports b i s valid (omega (arith, k))
          (room i (omega arith)) in
      let (b', s', e', ticked) =
        turns left (i + 1) b1 s1 (omega (arith, k)) played.valid
          (λ j l. room_later played j (λ e. omega (arith, l, e)) (room j (omega (arith, l)))) in
      (
        b',
        s',
        rw (e1) e',
        record {
          valid = ticked.valid;
          trails = λ y x e. ticked.trails y x (played.trails y x e);
          fates = λ j. lost_then _ _ _ (fate played j) (ticked.fates j);
          dirs = ticked.dirs ∙ played.dirs;
          players = ticked.players ∙ played.players;
          kept = λ j l.
              ticked.kept j (omega (arith, l)) ∙ played.pos_others j (λ e. omega (arith, l, e));
          moved = λ j p d l u living e_p e_d. elim (Bool-cases (i == j)) [
            | inl same ↦
                let e : i ≡ j = ground arith in
                let living1 : get_elem? b1.p_def i ≡ some alive =
                  alive_before (ticked.fates i)
                    (subst (λ v. get_elem? b'.p_def v ≡ some alive) (sym e) living) in
                subst (λ v. point_of b'.p_pos v ≡ some (record { x = p.x +ℤ d.x; y = p.y +ℤ d.y }))
                  e
                  (ticked.kept i (omega arith)
                    ∙ played.pos_self p d living1
                        (subst (λ v. point_of b.p_pos v ≡ some p) (sym e) e_p)
                        (subst (λ v. point_of b.p_dir v ≡ some d) (sym e) e_d))
            | inr other ↦
                let ne : i ≢ j = ground arith in
                ticked.moved j p d (omega (arith, l, ne)) (omega (arith, u)) living
                  (played.pos_others j ne ∙ e_p)
                  (subst (λ ds. point_of ds j ≡ some d) (sym played.dirs) e_d)
          ];
        },
      )

  -- On a valid board, on which each living snake has a cell of the board ahead of it, and with a
  -- `playerLost` that returns, `updateBoard` returns. The board it leaves is valid, has every trail
  -- it had, the same directions and number of players; each player's state is as before, or was
  -- alive and is now lost; and the head of a player still alive has moved by its direction.
  pub update_board-IsValid :
      (b : GameBoard) (s : S)
      → IsValid b
      → ((j : ℕ) → get_elem? b.p_def j ≡ some alive → HasRoom b j)
      → (b' : GameBoard) × (s' : S) × (update_board player_lost b s ≡ some (b', s'))
        × Ticked b b' 0 max_players
  unfolding update_board
  update_board-IsValid b s valid room = turns max_players 0 b s (omega arith) valid (λ j _. room j)
