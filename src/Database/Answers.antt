-- ===== src/Database/Answers.antt =====
-- The answers of the data base's process to a request.
use snuffin.Database.Arguments.{ask_two_lem, arguments_lem, Asked, after_both}
use snuffin.Common.Int.{pos, ℤ}
use snuffin.Database.Queries.{is_password, Sqlite}
use snuffin.Database.Requests.{result, manage, reply, valid_password_db}
use snuffin.Database.Shared.{
  is_password_command, ready, return_pos, char_value, to_byte, first_argument, type_pos, string_at,
  second_argument,
}
use snuffin.Libc.Buffer.{store-set, store, Lacks, c_string}
use snuffin.Libc.Print.{Bytes}
use snuffin.Common.{
  true, ltb, get_elem?-set_self, get_elem?-set_ne, length-set, set, ◌%◌, ◌>>=◌, get_elem?, ◌∙◌,
  refl, ◌+◌, ap, arith, ◌∷◌, ◌<◌, some, ◌≡◌, length, ◌≤◌, ℕ,
}

-- A code of one byte comes back as it was given.
pub reply_lem :
    {D : Type 0} (shm : Bytes) (code : ℕ) (d : D)
    → code < 128
    → return_pos < length shm
    → (shm' : Bytes) × ((reply shm (pos code) d >>= result) ≡ some (pos code, (shm', d)))
      × (length shm' ≡ length shm)
      × (get_elem? shm' type_pos ≡ some ready)
unfolding reply to_byte char_value
reply_lem shm code d small room =
    let byte : code % 256 ≡ code = omega (arith, small) in
    let one : Bytes = set shm return_pos code in
    let size : length one ≡ length shm = length-set shm return_pos code in
    let e1 : store shm return_pos code ≡ some one = store-set shm return_pos code room in
    let e2 : store one type_pos ready ≡ some (set one type_pos ready) =
      store-set one type_pos ready (omega (arith, size, room)) in
    let e3 : get_elem? (set one type_pos ready) return_pos ≡ some code =
      get_elem?-set_ne one type_pos return_pos ready (λ e. omega (arith, e))
      ∙ get_elem?-set_self shm return_pos code room in
    let positive : ltb code 128 ≡ true = ground arith in
    (
      set one type_pos ready,
      rw (byte, e1, e2, e3, positive) refl,
      length-set one type_pos ready ∙ size,
      get_elem?-set_self one type_pos ready (omega (arith, size, room)),
    )

manage_password :
    {D : Type 0} (sqlite : Sqlite D) (shm name word : Bytes) (d : D) {code : ℤ}
    → get_elem? shm type_pos ≡ some is_password_command
    → string_at shm first_argument ≡ some name
    → string_at shm second_argument ≡ some word
    → is_password sqlite name word d ≡ some code
    → manage sqlite (shm, d) ≡ reply shm code d
unfolding manage
manage_password sqlite shm name word d type first second checked =
    rw (type, first, second, checked) refl

-- The answer to `validPasswordDB` is that of `isPassword` for the same name and password, through
-- the shared memory, if the name has at most 62 bytes and the password fits as well. The memory is
-- ready for the next request then, and the data base is as it was.
pub valid_password_db_lem :
    {D : Type 0} (sqlite : Sqlite D) (user pass name word : Bytes) (c : ℕ) (m : Bytes) (d : D)
    {code : ℕ}
    → c_string user ≡ some name
    → c_string pass ≡ some word
    → Lacks 0 name
    → Lacks 0 word
    → length name < 63
    → second_argument + length word < length m
    → return_pos ≤ length m
    → is_password sqlite name word d ≡ some (pos code)
    → code < 128
    → (shm' : Bytes) × (valid_password_db sqlite user pass (c ∷ m, d) ≡ some (pos code, (shm', d)))
      × (length shm' ≡ length (c ∷ m))
      × (get_elem? shm' type_pos ≡ some ready)
unfolding valid_password_db
valid_password_db_lem sqlite user pass name word c m d {code} u p lu lp short room back checked
      small =
    let shm : Bytes =
      after_both is_password_command user pass name word c m d u p lu lp short room in
    let asked : Asked is_password_command name word (c ∷ m) shm =
      arguments_lem is_password_command user pass name word c m d u p lu lp short room in
    let (shm', replied, size, done) =
      reply_lem shm code d small (omega (arith, asked.size, back)) in
    (
      shm',
      rw (ask_two_lem is_password_command user pass name word c m d u p lu lp short room) (
          ap (λ o. o >>= result)
            (manage_password sqlite shm name word d asked.type_eq asked.first asked.second checked)
          ∙ replied),
      size ∙ asked.size,
      done,
    )
