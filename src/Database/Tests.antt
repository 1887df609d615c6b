-- ===== src/Database/Tests.antt =====
-- The theorems on the requests to the data base at concrete inputs.
use snuffin.Database.Undefined.{set_high_score_db-undefined}
use snuffin.Database.Requests.{set_high_score_db}
use snuffin.Common.{none}
use snuffin.Database.Scores.{get_high_score_db_lem}
use snuffin.Database.Shared.{ready, type_pos}
use snuffin.Database.Answers.{valid_password_db_lem}
use snuffin.Database.Requests.{get_high_score_db, valid_password_db}
use snuffin.Common.Int.{pos}
use snuffin.Common.{
  refl, ℕ, length-replicate, arith, get_elem?, length, ◌≡◌, [], ◌∷◌, ◌++◌, some, replicate, codes,
}
use snuffin.Libc.Print.{digits, Bytes}
use snuffin.Database.Queries.{get_highscore, is_password, Sqlite}
use snuffin.Libc.Buffer.{memcpy, sprintf, c_string}

-- A data base of one player, whose row does not change.
abbrev one_row : Sqlite Unit
one_row = record {
  column_int = λ sql column d. pos 1;
  column_text = λ sql column d. some (codes "clave");
  exec = λ sql d. (0, d);
}

abbrev ana : Bytes
ana = codes "ana" ++ 0 ∷ []

abbrev memory : Bytes
memory = replicate 1023 0

valid_password_db_lem_example :
    (shm' : Bytes) × (valid_password_db one_row ana (codes "clave" ++ 0 ∷ []) (0 ∷ memory, tt)
      ≡ some (pos 1, (shm', tt)))
    × (length shm' ≡ length (0 ∷ memory))
    × (get_elem? shm' type_pos ≡ some ready)
unfolding c_string is_password sprintf memcpy
valid_password_db_lem_example =
    valid_password_db_lem one_row ana (codes "clave" ++ 0 ∷ []) (codes "ana") (codes "clave") 0
      memory tt refl refl (ground arith) (ground arith) (omega arith)
      (omega (arith, length-replicate {A = ℕ} 1023 0))
      (omega (arith, length-replicate {A = ℕ} 1023 0)) refl (omega arith)

get_high_score_db_lem_example :
    (shm' : Bytes) × (get_high_score_db one_row ana (0 ∷ memory, tt) ≡ some (pos 1, (shm', tt)))
    × (get_elem? shm' type_pos ≡ some ready)
unfolding c_string get_highscore sprintf memcpy digits
get_high_score_db_lem_example =
    get_high_score_db_lem one_row ana (codes "ana") 0 memory tt 1 refl (ground arith) (omega arith)
      refl (omega arith) (omega arith) (omega (arith, length-replicate {A = ℕ} 1023 0))

set_high_score_db-undefined_example : set_high_score_db one_row ana (pos 80) (0 ∷ memory, tt) ≡ none
set_high_score_db-undefined_example =
    set_high_score_db-undefined one_row ana (pos 80) (0 ∷ memory, tt)
