-- ===== src/ChildServer/Lobby/Loops.antt =====
-- How the loop of `initGame` of childServer.c ends.
use snuffin.ChildServer.Over.{is_game_over-still_in, still_in}
use snuffin.Game.Tick.{update_board}
use snuffin.Libc.Print.{Bytes}
use snuffin.ChildServer.Match.{
  send_board, player_lost, listen_to_movement, is_game_over, play, game_round,
}
use snuffin.ChildServer.State.{Server, Memory, Db}
use snuffin.Common.{
  refl, ◌∙◌, ap, subst, sym, Bool-cases, ◌∷◌, length, arith, ◌++◌, ◌<◌, >>=-eq-some, ◌≤◌, Option,
  ◌≡◌, Bool, leb, ℕ, List, true, false, some, inl, inr, [],
}
use mathlib.Core.Option.{some-injective}

-- The rounds of a match: the requests that come during each, and the heap that `sendBoard` meets.
abbrev pub Rounds : Type 0
Rounds = List (List (Memory × Option ℕ) × Bytes)

leb_le : (a b : ℕ) → leb a b ≡ true → a ≤ b
leb_le a b e = ground (arith, e)

leb_lt : (a b : ℕ) → leb a b ≡ false → b < a
leb_lt a b e = ground (arith, e)

game_round-over :
    {D : Type 0} (behind : Bytes) (s : Server D) {over : Bool} {t : Server D}
    → game_round behind s ≡ some (over, t)
    → over ≡ leb (length (still_in t.clients)) 1
unfolding game_round
game_round-over behind s e =
    let (b, e1, e2) = >>=-eq-some s.game_board _ e in
    let ((b', s1), e3, e4) = >>=-eq-some (update_board player_lost b s) _ e2 in
    let (s2, e5, e6) =
      >>=-eq-some (send_board behind b' (record s1 { game_board = some b' })) _ e4 in
    let same = sym (some-injective _ _ e6) in
    ap (λ r. r.0) same ∙ ap (λ r. is_game_over r.1.clients) (sym same) ∙ is_game_over-still_in _

module _ {D : Type 0} (db : Db D) where
  -- A match is over with the round `last`: the rounds before it have not ended it, and those behind it
  -- are not played. At most one client that is there has not lost.
  pub record IsOver (rounds : Rounds) (s t : Server D) : Type 0 where
    pub before : Rounds
    pub last : List (Memory × Option ℕ) × Bytes
    pub later : Rounds
    pub between : Server D
    pub rounds_eq : rounds ≡ before ++ last ∷ later
    pub goes_on : play db before s ≡ some (false, between)
    pub last_round : play db (last ∷ []) between ≡ some (true, t)
    pub one_left : length (still_in t.clients) ≤ 1

  play-IsOver :
      (rounds : Rounds) (s : Server D) {t : Server D}
      → play db rounds s ≡ some (true, t)
      → IsOver rounds s t
  unfolding play is_game_over
  play-IsOver [] s e = cc
  play-IsOver ((requests, behind) ∷ rounds) s {t} e =
      let (u, e1, e2) = >>=-eq-some (listen_to_movement db requests s) _ e in
      let ((over, v), e3, e4) = >>=-eq-some (game_round behind u) _ e2 in
      elim (Bool-cases over) [
        | inl ends ↦
            let same : some (true, v) ≡ some (true, t) = (rw (ends) at e4) in
            let at_t : v ≡ t = ap (λ r. r.1) (some-injective _ _ same) in
            record {
              before = [];
              last = (requests, behind);
              later = rounds;
              between = s;
              rounds_eq = refl;
              goes_on = refl;
              last_round = rw (e1, e3, ends) same;
              one_left =
                  subst (λ w. length (still_in w.clients) ≤ 1) at_t
                    (leb_le _ _ (sym (game_round-over behind u e3) ∙ ends));
            }
        | inr not_yet ↦
            let rest = play-IsOver rounds v (rw (not_yet) at e4) in
            record {
              before = (requests, behind) ∷ rest.before;
              last = rest.last;
              later = rest.later;
              between = rest.between;
              rounds_eq = ap (λ rs. (requests, behind) ∷ rs) rest.rounds_eq;
              goes_on = rw (e1, e3, not_yet) rest.goes_on;
              last_round = rest.last_round;
              one_left = rest.one_left;
            }
      ]

  -- At least two clients that are there have not lost.
  abbrev TwoLeft : Server D → Type 0
  TwoLeft s = 1 < length (still_in s.clients)

  -- The first round leaves two, if the match goes on.
  first_goes_on :
      (r : List (Memory × Option ℕ) × Bytes) (rounds : Rounds) (s : Server D) {t : Server D}
      → play db (r ∷ rounds) s ≡ some (false, t)
      → (v : Server D) × TwoLeft v × (play db rounds v ≡ some (false, t))
  unfolding play is_game_over
  first_goes_on (requests, behind) rounds s {t} e =
      let (u, e1, e2) = >>=-eq-some (listen_to_movement db requests s) _ e in
      let ((over, v), e3, e4) = >>=-eq-some (game_round behind u) _ e2 in
      elim (Bool-cases over) [
        | inl ends ↦
            let same : some (true, v) ≡ some (false, t) = (rw (ends) at e4) in
            let bad : true ≡ false = ap (λ r. r.0) (some-injective _ _ same) in cc
        | inr not_yet ↦
            (v, leb_lt _ _ (sym (game_round-over behind u e3) ∙ not_yet), (rw (not_yet) at e4))
      ]

  keeps_on :
      (rounds : Rounds) (s : Server D) {t : Server D}
      → TwoLeft s
      → play db rounds s ≡ some (false, t)
      → TwoLeft t
  unfolding play
  keeps_on [] s two e = subst (λ w. TwoLeft w) (ap (λ r. r.1) (some-injective _ _ e)) two
  keeps_on (r ∷ rounds) s two e =
      let (v, two', rest) = first_goes_on r rounds s e in keeps_on rounds v two' rest

  play-goes_on :
      (rounds : Rounds) (s : Server D) {t : Server D}
      → 0 < length rounds
      → play db rounds s ≡ some (false, t)
      → TwoLeft t
  play-goes_on [] s some_round e = absurd (omega (arith, some_round))
  play-goes_on (r ∷ rounds) s some_round e =
      let (v, two, rest) = first_goes_on r rounds s e in keeps_on rounds v two rest

  -- The loop of `initGame`, as far as it has come after one round at least: if it has ended, it ended
  -- with the first round after which at most one client that is there has not lost, and no round was
  -- played behind that; if it goes on, two clients at least have not lost.
  pub play_lem :
      (rounds : Rounds) (s : Server D) {finished : Bool} {t : Server D}
      → 0 < length rounds
      → play db rounds s ≡ some (finished, t)
      → (finished ≡ true → IsOver rounds s t) × (finished ≡ false → 1 < length (still_in t.clients))
  play_lem rounds s {finished} {t} some_round e = (
    (λ ended. play-IsOver rounds s (subst (λ f. play db rounds s ≡ some (f, t)) ended e)),
    (λ not_yet.
        play-goes_on rounds s some_round (subst (λ f. play db rounds s ≡ some (f, t)) not_yet e)),
  )
