-- ===== src/Database/Scores.antt =====
-- What comes back of a score, and how an account is made: `getHighScoreDB` and `createUserDB`.
use snuffin.Database.Answers.{reply_lem}
use snuffin.Database.Digits.{load_int_lem}
use snuffin.Database.Arguments.{drop-take, ask_two_lem, ask_lem, arguments_lem, Asked, after_both}
use snuffin.Libc.Strtol.{read_int-show_int, read_int, Stops}
use snuffin.Common.Int.{pos, ℤ}
use snuffin.Libc.Buffer.{c_string_lem, c_string, Lacks, store}
use snuffin.Common.{
  ◌>>=◌, ap, ◌∙◌, [], suc, length-drop, length-append, drop, take, refl, arith, ◌+◌, ◌≤◌, length,
  some, ◌++◌, ◌^◌, ◌≡◌, ◌∷◌, ◌<◌, get_elem?, ℕ,
}
use snuffin.Database.Queries.{create_user, get_highscore, Sqlite}
use snuffin.Database.Shared.{
  ready, return_pos, second_argument, get_highscore_command, create_user_command, first_argument,
  type_pos, string_at,
}
use snuffin.Libc.Print.{digits, Bytes, show_int}
use snuffin.Database.Requests.{
  result, reply, get_high_score_db, create_user_db, manage, answer_score,
}

manage_get :
    {D : Type 0} (sqlite : Sqlite D) (shm name : Bytes) (d : D)
    → get_elem? shm type_pos ≡ some get_highscore_command
    → string_at shm first_argument ≡ some name
    → manage sqlite (shm, d) ≡ answer_score sqlite name shm d
unfolding manage
manage_get sqlite shm name d type first = rw (type, first) refl

-- The score is written over the return position, and is read from there.
answer_score_lem :
    {D : Type 0} (sqlite : Sqlite D) (name : Bytes) (command : ℕ) (m : Bytes) (d : D) (n : ℕ)
    → get_highscore sqlite name d ≡ some (pos n)
    → 1 ≤ n
    → n < 2 ^ 31
    → 255 + length (digits n) < length m
    → (rest : Bytes) × (answer_score sqlite name (command ∷ m) d
        ≡ some (ready ∷ (take 255 m ++ (digits n ++ 0 ∷ rest)), d))
unfolding answer_score store
answer_score_lem sqlite name command m d n row some_points small room =
    let written =
      load_int_lem n (drop 255 m) some_points small (omega (arith, length-drop 255 m, room)) in
    (drop (suc (length (digits n))) (drop 255 m), rw (row, written) refl)

first_lem :
    (command : ℕ) (name rest : Bytes)
    → Lacks 0 name
    → string_at (command ∷ (name ++ 0 ∷ rest)) first_argument ≡ some name
unfolding string_at
first_lem command name rest lacks = c_string_lem name rest lacks

read_digits : (n : ℕ) (s : Bytes) → n < 2 ^ 31 → Stops s → read_int (digits n ++ s) ≡ some (pos n)
unfolding show_int
read_digits n s small stop = read_int-show_int (pos n) s (small, omega arith) stop

-- `getHighScoreDB` returns the score that the data base has for the name, if it is positive; the
-- memory is ready for the next request then, and the data base is as it was. The name has at most 62
-- bytes, and the memory has room for the digits.
pub get_high_score_db_lem :
    {D : Type 0} (sqlite : Sqlite D) (user name : Bytes) (c : ℕ) (m : Bytes) (d : D) (n : ℕ)
    → c_string user ≡ some name
    → Lacks 0 name
    → length name < 63
    → get_highscore sqlite name d ≡ some (pos n)
    → 1 ≤ n
    → n < 2 ^ 31
    → 255 + length (digits n) < length m
    → (shm' : Bytes) × (get_high_score_db sqlite user (c ∷ m, d) ≡ some (pos n, (shm', d)))
      × (get_elem? shm' type_pos ≡ some ready)
unfolding get_high_score_db
get_high_score_db_lem sqlite user name c m d n u lu short row some_points small room =
    let behind : Bytes = name ++ 0 ∷ drop (length name + 1) m in
    let size : length behind ≡ length m = omega (
      arith,
      length-append name (0 ∷ drop (length name + 1) m),
      length-drop (length name + 1) m,
      short,
      room,
    ) in
    let asked =
      ask_lem get_highscore_command user (0 ∷ []) name [] c m d u (c_string_lem [] [] tt) lu tt
        short (omega (arith, room)) in
    let first : string_at (get_highscore_command ∷ behind) first_argument ≡ some name =
      first_lem get_highscore_command name (drop (length name + 1) m) lu in
    let (rest, answered) =
      answer_score_lem sqlite name get_highscore_command behind d n row some_points small
        (omega (arith, size, room)) in
    let served = manage_get sqlite (get_highscore_command ∷ behind) name d refl first ∙ answered in
    let back : drop return_pos (ready ∷ (take 255 behind ++ (digits n ++ 0 ∷ rest)))
        ≡ digits n ++ 0 ∷ rest =
      drop-take 255 behind (digits n ++ 0 ∷ rest) (omega (arith, size, room)) in
    let number : read_int (digits n ++ 0 ∷ rest) ≡ some (pos n) =
      read_digits n (0 ∷ rest) small refl in
    (
      ready ∷ (take 255 behind ++ (digits n ++ 0 ∷ rest)),
      rw (asked, served, back, number) refl,
      refl,
    )

manage_create :
    {D : Type 0} (sqlite : Sqlite D) (shm name word : Bytes) (d d' : D) {code : ℤ}
    → get_elem? shm type_pos ≡ some create_user_command
    → string_at shm first_argument ≡ some name
    → string_at shm second_argument ≡ some word
    → create_user sqlite name word d ≡ some (code, d')
    → manage sqlite (shm, d) ≡ reply shm code d'
unfolding manage
manage_create sqlite shm name word d d' type first second made = rw (type, first, second, made) refl

-- `createUserDB` makes the account that `createUser` makes for the same name and password, and
-- returns its code. The memory is ready for the next request then. The name has at most 62 bytes, and
-- the password fits as well.
pub create_user_db_lem :
    {D : Type 0} (sqlite : Sqlite D) (user pass name word : Bytes) (c : ℕ) (m : Bytes) (d d' : D)
    {code : ℕ}
    → c_string user ≡ some name
    → c_string pass ≡ some word
    → Lacks 0 name
    → Lacks 0 word
    → length name < 63
    → second_argument + length word < length m
    → return_pos ≤ length m
    → create_user sqlite name word d ≡ some (pos code, d')
    → code < 128
    → (shm' : Bytes) × (create_user_db sqlite user pass (c ∷ m, d) ≡ some (pos code, (shm', d')))
      × (length shm' ≡ length (c ∷ m))
      × (get_elem? shm' type_pos ≡ some ready)
unfolding create_user_db
create_user_db_lem sqlite user pass name word c m d d' {code} u p lu lp short room back made small =
    let shm : Bytes =
      after_both create_user_command user pass name word c m d u p lu lp short room in
    let asked : Asked create_user_command name word (c ∷ m) shm =
      arguments_lem create_user_command user pass name word c m d u p lu lp short room in
    let (shm', replied, size, done) =
      reply_lem shm code d' small (omega (arith, asked.size, back)) in
    (
      shm',
      rw (ask_two_lem create_user_command user pass name word c m d u p lu lp short room) (
          ap (λ o. o >>= result)
            (manage_create sqlite shm name word d d' asked.type_eq asked.first asked.second made)
          ∙ replied),
      size ∙ asked.size,
      done,
    )
