-- ===== src/Game/Callback.antt =====
-- The tick of game.c changes the caller's state through `playerLost` only.
use snuffin.Structs.{Point}
use snuffin.Common.Int.{eqb_ℤ, ◌+ℤ◌}
use snuffin.Game.Cells.{poke, peek}
use snuffin.Game.Board.{
  lost, assign, alive, out_of_board, tail_char, absent, point_of, max_players, GameBoard,
}
use snuffin.Game.Tick.{
  advance_snake, lose_snake, update_board, update_from, update_player, move_snake,
}
use mathlib.Core.Option.{some-injective}
use snuffin.Common.{
  inr, inl, ◌||◌, ◌&&◌, ◌==◌, ◌+◌, not, Bool-cases, suc, ap, get_elem?, subst, >>=-eq-some, some,
  ◌≡◌, Option, ℕ, zero,
}

module _ {S : Type 0} (player_lost : ℕ → S → Option S) (P : S → Type 0)
    (lost_keeps : (n : ℕ) (s t : S) → player_lost n s ≡ some t → P s → P t) where
  move_snake-keeps :
      (i : ℕ) (b : GameBoard) (s : S) {b' : GameBoard} {t : S}
      → move_snake player_lost i b s ≡ some (b', t)
      → P s
      → P t
  unfolding move_snake lose_snake advance_snake
  move_snake-keeps i b s {b'} {t} e h =
      let (position, e1, e2) = >>=-eq-some (point_of b.p_pos i) _ e in
      let (dir, e3, e4) = >>=-eq-some (point_of b.p_dir i) _ e2 in
      let (ahead, e5, e6) =
        >>=-eq-some (peek b.b_b (position.y +ℤ dir.y) (position.x +ℤ dir.x)) _ e4 in
      elim (Bool-cases (ahead == tail_char || out_of_board position)) [
        | inl hit ↦
            let e7 : lose_snake player_lost i b s ≡ some (b', t) = (rw (hit) at e6) in
            let (u, e8, e9) = >>=-eq-some (player_lost i s) _ e7 in
            let (defs, e10, e11) = >>=-eq-some (assign b.p_def i lost) _ e9 in
            let same : u ≡ t = ap (λ p. p.1) (some-injective _ _ e11) in
            subst P same (lost_keeps i s u e8 h)
        | inr free ↦
            let target : Point = record { x = position.x +ℤ dir.x; y = position.y +ℤ dir.y } in
            let e7 : advance_snake player_lost i target b s ≡ some (b', t) = (rw (free) at e6) in
            let (b_b, e8, e9) = >>=-eq-some (poke b.b_b target.y target.x tail_char) _ e7 in
            let (g_b, e10, e11) = >>=-eq-some (poke b.g_b target.y target.x (i + 1)) _ e9 in
            let (positions, e12, e13) = >>=-eq-some (assign b.p_pos i (some target)) _ e11 in
            let same : s ≡ t = ap (λ p. p.1) (some-injective _ _ e13) in subst P same h
      ]

  update_player-keeps :
      (i : ℕ) (b : GameBoard) (s : S) {b' : GameBoard} {t : S}
      → update_player player_lost i b s ≡ some (b', t)
      → P s
      → P t
  unfolding update_player
  update_player-keeps i b s {b'} {t} e h =
      let (d, e1, e2) = >>=-eq-some (get_elem? b.p_def i) _ e in
      elim (Bool-cases (not (eqb_ℤ d absent) && eqb_ℤ d alive)) [
        | inl living ↦ move_snake-keeps i b s (rw (living) at e2) h
        | inr idle ↦
            let e3 : some (b, s) ≡ some (b', t) = (rw (idle) at e2) in
            subst P (ap (λ p. p.1) (some-injective _ _ e3)) h
      ]

  update_from-keeps :
      (left i : ℕ) (b : GameBoard) (s : S) {b' : GameBoard} {t : S}
      → update_from player_lost left i b s ≡ some (b', t)
      → P s
      → P t
  unfolding update_from
  update_from-keeps zero i b s e h = subst P (ap (λ p. p.1) (some-injective _ _ e)) h
  update_from-keeps (suc left) i b s e h =
      let ((b1, s1), e1, e2) = >>=-eq-some (update_player player_lost i b s) _ e in
      update_from-keeps left (i + 1) b1 s1 e2 (update_player-keeps i b s e1 h)

  -- What `playerLost` keeps, a tick keeps.
  pub update_board-keeps :
      (b : GameBoard) (s : S) {b' : GameBoard} {t : S}
      → update_board player_lost b s ≡ some (b', t)
      → P s
      → P t
  unfolding update_board
  update_board-keeps b s e h = update_from-keeps max_players 0 b s e h
