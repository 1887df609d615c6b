-- ===== src/ChildServer/Verdict.antt =====
-- The end of `initGame` of childServer.c, and when it is undefined.
use snuffin.Database.Undefined.{set_high_score_db-undefined, none_after}
use snuffin.Database.Lobby.{lobby_db}
use snuffin.Database.Requests.{Shared}
use snuffin.Database.Queries.{Sqlite}
use snuffin.Log.{log_msg}
use snuffin.Common.Int.{add_int}
use snuffin.ChildServer.Match.{count_total, settle_all, end_game, settle}
use snuffin.ChildServer.State.{with_log, client_at, Server, Client, Db}
use snuffin.Libc.Buffer.{c_string}
use mathlib.Core.Option.{some-injective}
use snuffin.Common.{
  arith, true, false, inr, inl, ◌∙◌, ap, ◌==◌, refl, Bool-cases, suc, Option-cases, none, [], ◌≡◌,
  ◌∷◌, ◌++◌, ℕ, some, Option, List, zero,
}

settle-lobby_db :
    {D : Type 0} (sqlite : Sqlite D) (c : Client) (s : Server (Shared D))
    → settle (lobby_db sqlite) c s ≡ none
unfolding settle
settle-lobby_db sqlite c s = none_after c.name _ (λ named _.
    none_after (c_string named) _ (λ name _. none_after c.score _ (λ points _.
      none_after (add_int points _) _
        (λ score _. rw (set_high_score_db-undefined sqlite (name ++ 0 ∷ []) score s.db) refl))))

settle_all-lobby_db :
    {D : Type 0} (sqlite : Sqlite D) (cs : List (Option Client)) (s : Server (Shared D))
    → (count_total cs == 0) ≡ false
    → settle_all (lobby_db sqlite) cs s ≡ none
unfolding settle_all count_total
settle_all-lobby_db sqlite [] s there = cc
settle_all-lobby_db sqlite (none ∷ cs) s there = settle_all-lobby_db sqlite cs s there
settle_all-lobby_db sqlite (some c ∷ cs) s there = rw (settle-lobby_db sqlite c s) refl

settle_all-nobody :
    {D : Type 0} (db : Db D) (cs : List (Option Client)) (s : Server D)
    → (count_total cs == 0) ≡ true
    → settle_all db cs s ≡ some s
unfolding settle_all count_total
settle_all-nobody db [] s nobody = refl
settle_all-nobody db (none ∷ cs) s nobody = settle_all-nobody db cs s nobody
settle_all-nobody db (some c ∷ cs) s nobody = absurd (ground (arith, nobody))

-- With the data base of the program the end of every match is undefined: if a client is there, since
-- the value of `setHighscore` is used, which returns none; if not, since the message that is freed
-- was never made.
pub end_game-lobby_db :
    {D : Type 0} (sqlite : Sqlite D) (s : Server (Shared D)) → end_game (lobby_db sqlite) s ≡ none
unfolding end_game
end_game-lobby_db sqlite s = none_after (with_log (log_msg "Game over") s) _ (λ u _.
    elim (Bool-cases (count_total u.clients == 0)) [
      | inl nobody ↦ rw (settle_all-nobody (lobby_db sqlite) u.clients u nobody, nobody) refl
      | inr there ↦ rw (settle_all-lobby_db sqlite u.clients u there) refl
    ])

module _ {D : Type 0} (db : Db D) where
  settle-unnamed : (c : Client) (s : Server D) → c.name ≡ none → settle db c s ≡ none
  unfolding settle
  settle-unnamed c s e = rw (e) refl

  settle_all-unnamed :
      (cs : List (Option Client)) (n : ℕ) (c : Client) (s : Server D)
      → client_at cs n ≡ some c
      → c.name ≡ none
      → settle_all db cs s ≡ none
  unfolding settle_all client_at
  settle_all-unnamed [] n c s here e = cc
  settle_all-unnamed (none ∷ cs) zero c s here e = cc
  settle_all-unnamed (none ∷ cs) (suc n) c s here e = settle_all-unnamed cs n c s here e
  settle_all-unnamed (some c' ∷ cs) zero c s here e =
      let same : c' ≡ c = some-injective _ _ here in
      rw (settle-unnamed c' s (ap (λ k. k.name) same ∙ e)) refl
  settle_all-unnamed (some c' ∷ cs) (suc n) c s here e = elim (Option-cases (settle db c' s)) [
    | inl bad ↦ rw (bad) refl
    | inr (s1, good) ↦ rw (good) (settle_all-unnamed cs n c s1 here e)
  ]

  -- When a match ends while a client is there that has not given its name, as one that has connected
  -- during the match, its name is used although it was never set.
  pub end_game-unnamed :
      (n : ℕ) (c : Client) (s : Server D)
      → client_at s.clients n ≡ some c
      → c.name ≡ none
      → end_game db s ≡ none
  unfolding end_game
  end_game-unnamed n c s here e = elim (Option-cases (log_msg "Game over" s.log)) [
    | inl bad ↦ rw (bad) refl
    | inr (log, good) ↦
        rw (good, settle_all-unnamed s.clients n c (record s { log = log }) here e) refl
  ]
