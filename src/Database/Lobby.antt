-- ===== src/Database/Lobby.antt =====
-- The requests of dbManager.c as the data base that the lobby server takes. What it takes are the
-- texts of the strings that childServer.c has pointers to, which end in a 0.
use snuffin.Libc.Print.{Bytes}
use snuffin.Common.{[], ◌∷◌, ◌++◌, some, ◌>>=◌}
use snuffin.Database.Requests.{
  create_user_db, set_high_score_db, get_high_score_db, valid_password_db, exist_user_db, Shared,
}
use snuffin.ChildServer.State.{Db}
use snuffin.Database.Queries.{Sqlite}

abbrev ended : Bytes → Bytes
ended text = text ++ 0 ∷ []

abbrev pub lobby_db : {D : Type 0} → Sqlite D → Db (Shared D)
lobby_db sqlite = record {
  exist_user = λ name s. exist_user_db sqlite (ended name) s;
  valid_password = λ name word s. valid_password_db sqlite (ended name) (ended word) s;
  get_high_score = λ name s. get_high_score_db sqlite (ended name) s;
  set_high_score =
      λ name score s. set_high_score_db sqlite (ended name) score s >>= λ (code, s). some s;
  create_user = λ name word s. create_user_db sqlite (ended name) (ended word) s;
}
