-- ===== src/Database/Requests.antt =====
-- One request: dbManager.c writes it into the shared memory and waits, `manageDataBase` of db.c
-- answers, and dbManager.c reads the answer. The mutex and the two conditions make this the only
-- order, so the answer is a call here.
use snuffin.Libc.Strtol.{read_int}
use snuffin.Libc.Buffer.{store, c_string}
use snuffin.Database.Shared.{
  string_at, ready, char_value, second_argument, is_user_command, first_argument, to_byte, write_at,
  create_user_command, is_password_command, type_pos, get_highscore_command, return_pos,
  set_highscore_command,
}
use snuffin.Common.{
  ◌==◌, if◌then◌else◌, take, [], ◌+◌, ◌∷◌, length, ◌++◌, drop, some, ◌>>=◌, get_elem?, ℕ, Option,
}
use snuffin.Common.Int.{ℤ}
use snuffin.Libc.Print.{show_int, Bytes}
use snuffin.Database.Queries.{
  create_user, set_highscore, get_highscore, is_password, is_user, load_int, Sqlite,
}

-- The state that both processes see.
abbrev pub Shared : Type 0 → Type 0
Shared D = Bytes × D

module _ {D : Type 0} where
  -- The command and the first argument.
  unfoldable pub ask : ℕ → Bytes → Shared D → Option (Shared D)
  ask command user (shm, d) = do
    name ← c_string user
    shm ← store shm type_pos command
    shm ← write_at shm first_argument (name ++ 0 ∷ [])
    some (shm, d)

  unfoldable pub ask_two : ℕ → Bytes → Bytes → Shared D → Option (Shared D)
  unfolding ask
  ask_two command user second s = do
    (shm, d) ← ask command user s
    text ← c_string second
    shm ← write_at shm second_argument (text ++ 0 ∷ [])
    some (shm, d)

  abbrev pub result : Shared D → Option (ℤ × Shared D)
  result (shm, d) = get_elem? shm return_pos >>= λ b. some (char_value b, (shm, d))

  -- The result code, and the sign that the request is done.
  unfoldable pub reply : Bytes → ℤ → D → Option (Shared D)
  reply shm code d = do
    shm ← store shm return_pos (to_byte code)
    shm ← store shm type_pos ready
    some (shm, d)

module _ {D : Type 0} (sqlite : Sqlite D) where
  unfoldable pub answer_score : Bytes → Bytes → D → Option (Shared D)
  answer_score user shm d = do
    v ← get_highscore sqlite user d
    b ← load_int (drop return_pos shm) v
    shm ← store (take return_pos shm ++ b) type_pos ready
    some (shm, d)

  -- The cases of the `switch`. The value of `setHighscore` is used, which is undefined where it has
  -- none. A command that is not known is left as it is.
  unfoldable pub serve : ℕ → Bytes → D → Option (Shared D)
  unfolding reply answer_score
  serve command shm d =
      let user = string_at shm first_argument in
      let second = string_at shm second_argument in
      if command == is_user_command
      then (user >>= λ u. is_user sqlite u d >>= λ c. reply shm c d)
      else if command == is_password_command
      then (user >>= λ u. second >>= λ p. is_password sqlite u p d >>= λ c. reply shm c d)
      else if command == get_highscore_command
      then (user >>= λ u. answer_score u shm d)
      else if command == set_highscore_command
      then (user >>= λ u. read_int (drop second_argument shm) >>= λ v.
          set_highscore sqlite u v d >>= λ (value, d). value >>= λ c. reply shm c d)
      else if command == create_user_command
      then (user >>= λ u. second >>= λ p. create_user sqlite u p d >>= λ (c, d). reply shm c d)
      else some (shm, d)

  -- One round of `manageDataBase`.
  unfoldable pub manage : Shared D → Option (Shared D)
  unfolding serve
  manage (shm, d) = get_elem? shm type_pos >>= λ command. serve command shm d

  -- The 0 behind the name is a write of its own here.
  unfoldable pub exist_user_db : Bytes → Shared D → Option (ℤ × Shared D)
  unfolding manage
  exist_user_db user (shm, d) = do
    name ← c_string user
    shm ← store shm type_pos is_user_command
    shm ← write_at shm first_argument name
    shm ← store shm (length name + 1) 0
    s ← manage (shm, d)
    result s

  unfoldable pub valid_password_db : Bytes → Bytes → Shared D → Option (ℤ × Shared D)
  unfolding manage ask_two
  valid_password_db user pass s = do
    s ← ask_two is_password_command user pass s
    s ← manage s
    result s

  unfoldable pub get_high_score_db : Bytes → Shared D → Option (ℤ × Shared D)
  unfolding manage ask
  get_high_score_db user s = do
    s ← ask get_highscore_command user s
    (shm, d) ← manage s
    i ← read_int (drop return_pos shm)
    some (i, (shm, d))

  unfoldable pub set_high_score_db : Bytes → ℤ → Shared D → Option (ℤ × Shared D)
  unfolding manage ask
  set_high_score_db user value s = do
    (shm, d) ← ask set_highscore_command user s
    shm ← write_at shm second_argument (show_int value ++ 0 ∷ [])
    s ← manage (shm, d)
    result s

  unfoldable pub create_user_db : Bytes → Bytes → Shared D → Option (ℤ × Shared D)
  unfolding manage ask_two
  create_user_db user pass s = do
    s ← ask_two create_user_command user pass s
    s ← manage s
    result s
