-- ===== src/Database/Undefined.antt =====
-- `setHighscoreDB` of dbManager.c, whose answer is the value of `setHighscore` of db.c.
use mathlib.Core.Option.{some-injective}
use snuffin.Libc.Strtol.{read_int}
use snuffin.Libc.Buffer.{store, c_string, memcpy}
use snuffin.Common.Int.{ℤ}
use snuffin.Libc.Print.{show_int, Bytes}
use snuffin.Database.Queries.{quoted, statement, set_highscore, Sqlite}
use snuffin.Database.Requests.{manage, Shared, set_high_score_db, ask, serve}
use snuffin.Database.Shared.{
  second_argument, string_at, first_argument, set_highscore_command, write_at,
}
use snuffin.Common.{
  ◌∙◌, subst, codes, refl, ◌>>=◌, ap, Option, sym, ◌++◌, take, drop, >>=-eq-some, ◌≡◌, ◌∷◌, ℕ, none,
  some, suc, [],
}

-- A write behind the command keeps it.
write_at-command :
    (command k : ℕ) (m s : Bytes) {shm : Bytes}
    → write_at (command ∷ m) (suc k) s ≡ some shm
    → (m' : Bytes) × (shm ≡ command ∷ m')
unfolding write_at
write_at-command command k m s e =
    let (b, e1, e2) = >>=-eq-some (memcpy (drop (suc k) (command ∷ m)) s) _ e in
    (take k m ++ b, sym (some-injective _ _ e2))

pub none_after :
    {A B : Type 0} (o : Option A) (f : A → Option B)
    → ((a : A) → o ≡ some a → f a ≡ none)
    → (o >>= f) ≡ none
none_after none f h = refl
none_after (some a) f h = h a refl

ask-command :
    {D : Type 0} (command : ℕ) (user shm : Bytes) (d : D) {s : Shared D}
    → ask command user (shm, d) ≡ some s
    → (m : Bytes) × (s.0 ≡ command ∷ m)
unfolding ask store
ask-command command user [] d e = let (name, e1, e2) = >>=-eq-some (c_string user) _ e in cc
ask-command command user (c ∷ m) d e =
    let (name, e1, e2) = >>=-eq-some (c_string user) _ e in
    let (shm, e3, e4) = >>=-eq-some (write_at (command ∷ m) first_argument (name ++ 0 ∷ [])) _ e2 in
    let (m', same) = write_at-command command 0 m (name ++ 0 ∷ []) e3 in
    (m', sym (ap (λ s. s.0) (some-injective _ _ e4)) ∙ same)

no_value :
    {D : Type 0} (sqlite : Sqlite D) (name : Bytes) (score : ℤ) (d : D) {r : Option ℤ × D}
    → set_highscore sqlite name score d ≡ some r
    → r.0 ≡ none
unfolding set_highscore
no_value sqlite name score d e =
    let (sql, e1, e2) =
      >>=-eq-some
        (statement 400 (
          codes "UPDATE player set score = "
          ++ (show_int score ++ quoted " where name = '" name "' ")))
        _ e in
    ap (λ v. v.0) (sym (some-injective _ _ e2))

-- The command is not answered: the value of `setHighscore` is used.
serve-set_highscore :
    {D : Type 0} (sqlite : Sqlite D) (shm : Bytes) (d : D)
    → serve sqlite set_highscore_command shm d ≡ none
unfolding serve set_highscore
serve-set_highscore sqlite shm d = none_after (string_at shm first_argument) _ (λ u _.
    none_after (read_int (drop second_argument shm)) _
      (λ v _. none_after (set_highscore sqlite u v d) _ (λ r e. rw (no_value sqlite u v d e) refl)))

-- `setHighscoreDB` is undefined, whatever it is given: `setHighscore` ends without a value, and the
-- process of the data base uses its value.
pub set_high_score_db-undefined :
    {D : Type 0} (sqlite : Sqlite D) (user : Bytes) (value : ℤ) (s : Shared D)
    → set_high_score_db sqlite user value s ≡ none
unfolding set_high_score_db manage
set_high_score_db-undefined sqlite user value (shm, d) =
    none_after (ask set_highscore_command user (shm, d)) _ (λ (shm1, d1) e1.
      let (m, first) = ask-command set_highscore_command user shm d e1 in
      none_after (write_at shm1 second_argument (show_int value ++ 0 ∷ [])) _ (λ shm2 e2.
        let e2' =
          subst (λ b. write_at b second_argument (show_int value ++ 0 ∷ []) ≡ some shm2) first e2 in
        let (m2, second) =
          write_at-command set_highscore_command 63 m (show_int value ++ 0 ∷ []) e2' in
        rw (second, serve-set_highscore sqlite (set_highscore_command ∷ m2) d1) refl))
