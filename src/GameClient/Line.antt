-- ===== src/GameClient/Line.antt =====
-- The keys of `getPass` of client.c, one by one, against an editor of one line.
use snuffin.Game.Valid.{assign-set}
use snuffin.GameClient.Lobby.{max_word}
use snuffin.Game.Board.{assign}
use snuffin.Libc.Print.{Bytes}
use snuffin.GameClient.Typing.{backspace, press_pass, type_pass, in_order}
use snuffin.Common.{
  sym, ◌>>=◌, ltb-false, ltb-true, false, not, ◌&&◌, true, ◌==◌, ◌≤◌, ap, append_assoc, ◌∙◌, none,
  refl, suc, ◌-◌, ◌+◌, set_middle, length-append, [], arith, subst, some, ◌∷◌, ◌<◌, ◌≡◌, set, ◌++◌,
  length, ℕ, Option, List, zero,
}

length-in_order : (typed : List ℕ) → length (in_order typed) ≡ length typed
unfolding in_order
length-in_order [] = refl
length-in_order (c ∷ typed) =
    omega (arith, length-append (in_order typed) (c ∷ []), length-in_order typed)

-- The array begins with the line; `outcome` is what the editor says of it.
abbrev pub Finish : Option (Bytes × List ℕ) → Option (ℕ × (Bytes × List ℕ)) → Type 0
Finish none r = (i : ℕ) × (pass : Bytes) × (i < max_word) × (r ≡ some (i, (pass, [])))
Finish (some (line, rest)) r =
    (pass : Bytes) × (junk : Bytes) × (r ≡ some (max_word, (pass, rest)))
    × (set pass (max_word - 1) 0 ≡ line ++ 0 ∷ junk)
    × (length pass ≡ max_word)

-- The array at the place where the next key goes.
pub next_place :
    (typed : List ℕ) (junk : Bytes)
    → length (in_order typed ++ junk) ≡ max_word
    → length typed < max_word
    → (j : ℕ) × (rest : Bytes) × (junk ≡ j ∷ rest)
next_place typed [] size less =
    absurd (omega (arith, size, length-append (in_order typed) [], length-in_order typed))
next_place typed (j ∷ rest) size less = (j, rest, refl)

set_next :
    (typed : List ℕ) (j : ℕ) (rest : Bytes) (v : ℕ)
    → set (in_order typed ++ j ∷ rest) (length typed) v ≡ in_order typed ++ v ∷ rest
set_next typed j rest v =
    subst (λ n. set (in_order typed ++ j ∷ rest) n v ≡ in_order typed ++ v ∷ rest)
      (length-in_order typed) (set_middle (in_order typed) j rest v)

assign_next :
    (typed : List ℕ) (j : ℕ) (rest : Bytes) (v : ℕ)
    → assign (in_order typed ++ j ∷ rest) (length typed) v ≡ some (in_order typed ++ v ∷ rest)
assign_next typed j rest v =
    assign-set (in_order typed ++ j ∷ rest) (length typed) v
      (omega (arith, length-append (in_order typed) (j ∷ rest), length-in_order typed))
    ∙ ap some (set_next typed j rest v)

-- A line that is full.
pub full_lem :
    (k : ℕ) (typed : List ℕ) (junk : Bytes) (keys : List ℕ)
    → length (in_order (k ∷ typed) ++ junk) ≡ max_word
    → length typed + 1 ≡ max_word
    → Finish
        (some (in_order typed, keys))
        (some (suc (length typed), (in_order (k ∷ typed) ++ junk, keys)))
unfolding in_order
full_lem k typed junk keys size full =
    let e : in_order (k ∷ typed) ++ junk ≡ in_order typed ++ k ∷ junk =
      append_assoc (in_order typed) (k ∷ []) junk in
    let at_last : length typed ≡ max_word - 1 = omega (arith, full) in
    let count : suc (length typed) ≡ max_word = omega (arith, full) in
    (
      in_order (k ∷ typed) ++ junk,
      junk,
      ap (λ n. some (n, (in_order (k ∷ typed) ++ junk, keys))) count,
      ap (λ l. set l (max_word - 1) 0) e
          ∙ subst (λ n. set (in_order typed ++ k ∷ junk) n 0 ≡ in_order typed ++ 0 ∷ junk) at_last
              (set_next typed k junk 0),
      size,
    )

-- A 0 at the end or behind it.
set_last :
    (line rest : Bytes) (m : ℕ)
    → length line ≤ m
    → (junk : Bytes) × (set (line ++ 0 ∷ rest) m 0 ≡ line ++ 0 ∷ junk)
set_last [] rest zero h = (rest, refl)
set_last [] rest (suc m) h = (set rest m 0, refl)
set_last (c ∷ line) rest zero h = absurd (omega (arith, h))
set_last (c ∷ line) rest (suc m) h =
    let (junk, e) = set_last line rest m (omega (arith, h)) in (junk, ap (λ l. c ∷ l) e)

-- The line ends with the key.
pub entered_lem :
    (typed : List ℕ) (j : ℕ) (rest keys : List ℕ)
    → length (in_order typed ++ j ∷ rest) ≡ max_word
    → Finish (some (in_order typed, keys)) (some (max_word, (in_order typed ++ 0 ∷ rest, keys)))
entered_lem typed j rest keys size =
    let total = length-append (in_order typed) (j ∷ rest) in
    let total' = length-append (in_order typed) (0 ∷ rest) in
    let (junk, e) = set_last (in_order typed) rest (max_word - 1) (omega (arith, size, total)) in
    (in_order typed ++ 0 ∷ rest, junk, refl, e, omega (arith, size, total, total'))

-- A key that is stored.
pub press_stored :
    (c : ℕ) (typed : List ℕ) (j : ℕ) (rest : Bytes)
    → (c == backspace && not (length typed == 0)) ≡ false
    → (c == b'\n') ≡ false
    → press_pass c (length typed) (in_order typed ++ j ∷ rest)
      ≡ some (length (c ∷ typed), in_order (c ∷ typed) ++ rest)
unfolding press_pass in_order
press_stored c typed j rest key more =
    let e : length typed + 1 ≡ suc (length typed) = omega arith in
    rw (key, more, assign_next typed j rest c, e, append_assoc (in_order typed) (c ∷ []) rest) refl

pub press_enter :
    (c : ℕ) (typed : List ℕ) (j : ℕ) (rest : Bytes)
    → (c == backspace && not (length typed == 0)) ≡ false
    → (c == b'\n') ≡ true
    → 0 < length typed
    → press_pass c (length typed) (in_order typed ++ j ∷ rest)
      ≡ some (max_word, in_order typed ++ 0 ∷ rest)
unfolding press_pass
press_enter c typed j rest key enter some_typed =
    let there : (length typed == 0) ≡ false = ground (arith, some_typed) in
    rw (key, enter, there, assign_next typed j rest 0) refl

pub press_back :
    (c k : ℕ) (typed : List ℕ) (junk : Bytes)
    → length (in_order (k ∷ typed) ++ junk) ≡ max_word
    → (c == backspace) ≡ true
    → (length (in_order typed ++ k ∷ junk) ≡ max_word)
      × (press_pass c (suc (length typed)) (in_order (k ∷ typed) ++ junk)
          ≡ some (length typed, in_order typed ++ k ∷ junk))
unfolding press_pass in_order
press_back c k typed junk size back =
    let e : in_order (k ∷ typed) ++ junk ≡ in_order typed ++ k ∷ junk =
      append_assoc (in_order typed) (k ∷ []) junk in
    let there : (suc (length typed) == 0) ≡ false = ground arith in
    let n : suc (length typed) - 1 ≡ length typed = omega arith in
    (ap length (sym e) ∙ size, rw (back, there, n, e) refl)

pub press_blank :
    (c : ℕ) (pass : Bytes) → (c == b'\n') ≡ true → press_pass c 0 pass ≡ some (0, pass)
unfolding press_pass
press_blank c pass blank =
    let key : (c == backspace && not (0 == 0)) ≡ false = ground arith in rw (key, blank) refl

pub grown :
    (c : ℕ) (typed : List ℕ) (j : ℕ) (rest : Bytes)
    → length (in_order typed ++ j ∷ rest) ≡ max_word
    → length (in_order (c ∷ typed) ++ rest) ≡ max_word
unfolding in_order
grown c typed j rest size = omega (
  arith,
  size,
  length-append (in_order typed) (j ∷ rest),
  length-append (in_order typed ++ c ∷ []) rest,
  length-append (in_order typed) (c ∷ []),
)

pub type_pass_key :
    (c : ℕ) (cs : List ℕ) (i : ℕ) (pass : Bytes) (i' : ℕ) (pass' : Bytes)
    → i < max_word
    → press_pass c i pass ≡ some (i', pass')
    → type_pass (c ∷ cs) i pass ≡ type_pass cs i' pass'
unfolding type_pass
type_pass_key c cs i pass i' pass' less e =
    rw (ltb-true i max_word less) (ap (λ r. r >>= λ (n, q). type_pass cs n q) e)

pub type_pass_stop :
    (keys : List ℕ) (i : ℕ) (pass : Bytes)
    → max_word ≤ i
    → type_pass keys i pass ≡ some (i, (pass, keys))
unfolding type_pass
type_pass_stop [] i pass h = refl
type_pass_stop (c ∷ cs) i pass h = rw (ltb-false i max_word h) refl

pub type_pass_end : (i : ℕ) (pass : Bytes) → type_pass [] i pass ≡ some (i, (pass, []))
unfolding type_pass
type_pass_end i pass = refl
