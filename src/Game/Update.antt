-- ===== src/Game/Update.antt =====
-- The turn of one player in `updateBoard`, and the tick of all of them.
use snuffin.Structs.{Point}
use snuffin.Common.Int.{eq_of_parts, eqb_ℤ, eqb_ℤ_cases, ℤ}
use mathlib.Core.Option.{some-injective}
use snuffin.Game.Cells.{peek-Inside, get_some, Inside}
use snuffin.Game.Moves.{move_snake-free, move_snake-hit, Moved}
use snuffin.Game.Invariant.{
  keep_head, Moved-pos_self, Moved-pos_others, Moved-trails, Moved-IsValid, HasRoom, Played,
}
use snuffin.Game.Valid.{target, HasHead, IsValid}
use snuffin.Game.Tick.{move_snake, update_player}
use snuffin.Game.Board.{tail_char, board_width, board_height, lost, alive, GameBoard, max_players}
use snuffin.Common.{
  ap, inr, subst, sym, arith, ◌==◌, Bool-cases, ◌∙◌, length-set, get_elem?-set_ne,
  get_elem?-set_self, refl, inl, get_lt, set, length, ◌≢◌, get_elem?, some, ◌≡◌, ◌<◌, Option, ℕ,
}

lost_not_alive : some lost ≢ some alive
lost_not_alive e = cc

module _ {S : Type 0} (player_lost : ℕ → S → Option S) (b : GameBoard) (i : ℕ) (s : S) where
  pub update_player-alive :
      get_elem? b.p_def i ≡ some alive
      → update_player player_lost i b s ≡ move_snake player_lost i b s
  unfolding update_player
  update_player-alive e = rw (e) refl

  pub update_player-idle :
      (d : ℤ)
      → get_elem? b.p_def i ≡ some d
      → d ≢ alive
      → update_player player_lost i b s ≡ some (b, s)
  unfolding update_player
  update_player-idle d e ne = elim (Bool-cases (eqb_ℤ d alive)) [
    | inl same ↦ absurd (ne (eq_of_parts d alive (ground arith)))
    | inr other ↦ rw (e, other) (ground arith)
  ]

module _ {S : Type 0} (player_lost : ℕ → S → Option S)
    (reports : (i : ℕ) (s : S) → i < max_players → (s' : S) × (player_lost i s ≡ some s')) where
  -- A player that is absent or has lost keeps its place.
  idle : (b : GameBoard) (i : ℕ) → IsValid b → get_elem? b.p_def i ≢ some alive → Played b b i
  idle b i valid dead = record {
    valid = valid;
    trails = λ y x e. e;
    def_others = λ j ne. refl;
    def_self = inl refl;
    pos_others = λ j ne. refl;
    pos_self = λ p d e. absurd (dead e);
    dirs = refl;
    players = refl;
  }

  module _ (b : GameBoard) (i : ℕ) (valid : IsValid b)
      (living : get_elem? b.p_def i ≡ some alive) where
    abbrev here : HasHead b i
    here = valid.heads i living

    in_range : i < length b.p_def
    in_range = get_lt b.p_def i living

    loses : Played b (record b { p_def = set b.p_def i lost }) i
    loses =
        let stopped = get_elem?-set_self b.p_def i lost in_range in
        let others = λ (j : ℕ) (ne : i ≢ j). get_elem?-set_ne b.p_def i j lost ne in
        record {
          valid = record {
            b_size = valid.b_size;
            g_size = valid.g_size;
            def_size = length-set b.p_def i lost ∙ valid.def_size;
            dir_size = valid.dir_size;
            pos_size = valid.pos_size;
            heads = λ j e. elim (Bool-cases (i == j)) [
              | inl same ↦
                  let e' : j ≡ i = ground arith in
                  absurd (
                    lost_not_alive (
                      sym stopped
                      ∙ subst (λ k. get_elem? (set b.p_def i lost) k ≡ some alive) e' e))
              | inr other ↦
                  keep_head b _ j (λ y x t. t) refl refl
                    (valid.heads j (sym (others j (ground arith)) ∙ e))
            ];
          };
          trails = λ y x e. e;
          def_others = others;
          def_self = inr (living, stopped);
          pos_others = λ j ne. refl;
          pos_self = λ p d e. absurd (lost_not_alive (sym stopped ∙ e));
          dirs = refl;
          players = refl;
        }

    moves :
        (b' : GameBoard)
        → Moved b b' i (target here)
        → Inside board_height board_width (target here).y (target here).x
        → Played b b' i
    moves b' moved room = record {
      valid = Moved-IsValid b b' i valid living moved room;
      trails = Moved-trails b b' i valid living moved room;
      def_others = λ j ne. rw (moved.defs) refl;
      def_self = inl (rw (moved.defs) refl);
      pos_others = Moved-pos_others b b' i valid living moved room;
      pos_self = λ p d e e_p e_d.
          rw
            (
              Moved-pos_self b b' i valid living moved room,
              some-injective p here.head (sym e_p ∙ here.head_eq),
              some-injective d here.dir (sym e_d ∙ here.dir_eq),
            )
            refl;
      dirs = moved.dirs;
      players = moved.players;
    }

  -- The turn of a living snake with a cell ahead.
  living_turn :
      (b : GameBoard) (i : ℕ) (s : S) (valid : IsValid b)
      (living : get_elem? b.p_def i ≡ some alive)
      → HasRoom b i
      → (b' : GameBoard) × (s' : S) × (move_snake player_lost i b s ≡ some (b', s')) × Played b b' i
  living_turn b i s valid living room =
      let h : HasHead b i = valid.heads i living in
      let t : Point = target h in
      let room_t : Inside board_height board_width t.y t.x = room h.head h.dir h.head_eq h.dir_eq in
      let (c, seen) = peek-Inside board_height board_width b.b_b valid.b_size t.y t.x room_t in
      elim (Bool-cases (c == tail_char)) [
        | inl hit ↦
            let c_tail : c ≡ tail_char = ground arith in
            let (s', told) = reports i s (omega (arith, valid.def_size, get_lt b.p_def i living)) in
            (
              _,
              s',
              move_snake-hit player_lost b i s valid living (seen ∙ ap some c_tail) told,
              loses b i valid living,
            )
        | inr free ↦
            let (b', e, moved) =
              move_snake-free player_lost b i s valid living c room_t seen (ground arith) in
            (b', s, e, moves b i valid living b' moved room_t)
      ]

  -- The turn of any player.
  pub update_player_lem :
      (b : GameBoard) (i : ℕ) (s : S)
      → IsValid b
      → i < max_players
      → (get_elem? b.p_def i ≡ some alive → HasRoom b i)
      → (b' : GameBoard) × (s' : S) × (update_player player_lost i b s ≡ some (b', s'))
        × Played b b' i
  update_player_lem b i s valid h room =
      let (d, e) = get_some b.p_def i (omega (arith, h, valid.def_size)) in
      elim (eqb_ℤ_cases d alive) [
        | inl same ↦
            let living : get_elem? b.p_def i ≡ some alive = e ∙ ap some same in
            let (b', s', run, played) = living_turn b i s valid living (room living) in
            (b', s', update_player-alive player_lost b i s living ∙ run, played)
        | inr ne ↦ (
          b,
          s,
          update_player-idle player_lost b i s d e ne,
          idle b i valid (λ p. ne (some-injective d alive (sym e ∙ p))),
        )
      ]
