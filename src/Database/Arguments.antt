-- ===== src/Database/Arguments.antt =====
-- The arguments of a request in the shared memory.
use snuffin.Database.Requests.{ask_two, ask}
use snuffin.Database.Shared.{first_argument, type_pos, string_at, write_at, second_argument}
use snuffin.Libc.Buffer.{c_string_lem, memcpy_string, store, Lacks, c_string}
use snuffin.Libc.Print.{Bytes}
use snuffin.Common.{
  append_assoc, length-drop, get_elem?, length-append, [], sym, ◌∙◌, refl, ◌+◌, ap, zero, arith,
  ◌∷◌, ◌<◌, suc, ◌-◌, ◌++◌, some, take, drop, ◌≡◌, length, ◌≤◌, ℕ,
}

pub drop-take : (n : ℕ) (xs ys : Bytes) → n ≤ length xs → drop n (take n xs ++ ys) ≡ ys
drop-take zero xs ys h = refl
drop-take (suc n) [] ys h = absurd (omega (arith, h))
drop-take (suc n) (x ∷ xs) ys h = drop-take n xs ys (omega (arith, h))

take-append : (t xs : Bytes) (k : ℕ) → length t ≤ k → take k (t ++ xs) ≡ t ++ take (k - length t) xs
take-append [] xs k h = let same : k - 0 ≡ k = omega arith in ap (λ i. take i xs) (sym same)
take-append (c ∷ t) xs zero h = absurd (omega (arith, h))
take-append (c ∷ t) xs (suc k) h =
    let same : suc k - suc (length t) ≡ k - length t = omega arith in
    ap (λ l. c ∷ l) (take-append t xs k (omega (arith, h)))
    ∙ ap (λ i. c ∷ (t ++ take i xs)) (sym same)

length-take : (n : ℕ) (xs : Bytes) → n ≤ length xs → length (take n xs) ≡ n
length-take zero xs h = refl
length-take (suc n) [] h = absurd (omega (arith, h))
length-take (suc n) (x ∷ xs) h = ap suc (length-take n xs (omega (arith, h)))

-- A string stays one when what is behind its 0 is cut and goes on in another way.
c_string-take :
    (t r rest : Bytes) (n : ℕ)
    → Lacks 0 t
    → length t < n
    → c_string (take n (t ++ 0 ∷ r) ++ rest) ≡ some t
c_string-take t r rest n lacks h =
    let k : ℕ = n - length t - 1 in
    let left : n - length t ≡ suc k = omega (arith, h) in
    ap (λ l. c_string (l ++ rest))
      (take-append t (0 ∷ r) n (omega (arith, h)) ∙ ap (λ i. t ++ take i (0 ∷ r)) left)
    ∙ ap c_string (append_assoc t (0 ∷ take k r) rest)
    ∙ c_string_lem t (take k r ++ rest) lacks

-- Both arguments are in their places, and the command is set.
pub record Asked (command : ℕ) (name word shm shm' : Bytes) : Type 0 where
  pub size : length shm' ≡ length shm
  pub type_eq : get_elem? shm' type_pos ≡ some command
  pub first : string_at shm' first_argument ≡ some name
  pub second : string_at shm' second_argument ≡ some word
  pub rest : Bytes
  pub second_at : drop second_argument shm' ≡ word ++ 0 ∷ rest

module _ {D : Type 0} (command : ℕ) (user second name word : Bytes) (c : ℕ) (m : Bytes) (d : D)
    (user_text : c_string user ≡ some name) (second_text : c_string second ≡ some word)
    (lacks_name : Lacks 0 name) (lacks_word : Lacks 0 word) (short : length name < 63)
    (room : second_argument + length word < length m) where
  abbrev pub after_user : Bytes
  after_user = command ∷ (name ++ 0 ∷ drop (length name + 1) m)

  pub ask_lem : ask command user (c ∷ m, d) ≡ some (after_user, d)
  unfolding ask write_at store
  ask_lem = rw (user_text, memcpy_string m name (omega (arith, room, short))) refl

  size_after : length after_user ≡ length (c ∷ m)
  size_after = omega (
    arith,
    length-append name (0 ∷ drop (length name + 1) m),
    length-drop (length name + 1) m,
    room,
    short,
  )

  abbrev pub after_both : Bytes
  after_both = take 64 after_user ++ (word ++ 0 ∷ drop (length word + 1) (drop 64 after_user))

  pub write_second : write_at after_user second_argument (word ++ 0 ∷ []) ≡ some after_both
  unfolding write_at
  write_second =
      rw
        (memcpy_string (drop 64 after_user) word
          (omega (arith, length-drop 64 after_user, size_after, room)))
        refl

  pub ask_two_lem : ask_two command user second (c ∷ m, d) ≡ some (after_both, d)
  unfolding ask_two
  ask_two_lem = rw (ask_lem, second_text, write_second) refl

  second_lem : drop 64 after_both ≡ word ++ 0 ∷ drop (length word + 1) (drop 64 after_user)
  second_lem =
      drop-take 64 after_user (word ++ 0 ∷ drop (length word + 1) (drop 64 after_user))
        (omega (arith, size_after, room))

  pub arguments_lem : Asked command name word (c ∷ m) after_both
  unfolding string_at
  arguments_lem = record {
    size = omega (
      arith,
      size_after,
      length-append (take 64 after_user) (word ++ 0 ∷ drop (length word + 1) (drop 64 after_user)),
      length-take 64 after_user (omega (arith, size_after, room)),
      length-append word (0 ∷ drop (length word + 1) (drop 64 after_user)),
      length-drop (length word + 1) (drop 64 after_user),
      length-drop 64 after_user,
      room,
    );
    type_eq = refl;
    first = c_string-take name (drop (length name + 1) m) _ 63 lacks_name short;
    second =
        ap c_string second_lem
        ∙ c_string_lem word (drop (length word + 1) (drop 64 after_user)) lacks_word;
    rest = drop (length word + 1) (drop 64 after_user);
    second_at = second_lem;
  }
