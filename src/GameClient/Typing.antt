-- ===== src/GameClient/Typing.antt =====
-- `getPass` of client.c: how a password is typed. The keys are what `getchar` returns, in their order;
-- `kbhit` only says when to ask for them.
use snuffin.GameClient.Lobby.{max_word}
use snuffin.Libc.Print.{Bytes}
use snuffin.Game.Board.{assign}
use snuffin.Common.{
  not, ◌&&◌, ◌==◌, length, ltb, ◌+◌, ◌++◌, none, if◌then◌else◌, ◌-◌, [], ◌>>=◌, some, ◌∷◌, Option,
  List, ℕ,
}

abbrev pub backspace : ℕ
backspace = 127

-- One key, at the place i of the array.
unfoldable pub press_pass : ℕ → ℕ → Bytes → Option (ℕ × Bytes)
unfolding assign
press_pass c i pass =
    let ended = assign pass i 0 >>= λ pass. some (max_word, pass) in
    let stored = assign pass i c >>= λ pass. some (i + 1, pass) in
    if c == backspace && not (i == 0)
    then some (i - 1, pass)
    else if c == b'\n'
    then (if i == 0 then some (i, pass) else ended)
    else stored

-- The loops, until the array is full or the line ends. What is left of the keys is not read.
unfoldable pub type_pass : List ℕ → ℕ → Bytes → Option (ℕ × (Bytes × List ℕ))
unfolding press_pass
type_pass [] i pass = some (i, (pass, []))
type_pass (c ∷ cs) i pass =
    let rest = press_pass c i pass >>= λ (i, pass). type_pass cs i pass in
    if ltb i max_word then rest else some (i, (pass, c ∷ cs))

-- `some none` while the loop goes on.
unfoldable pub get_pass : List ℕ → Bytes → Option (Option (Bytes × List ℕ))
unfolding type_pass
get_pass keys pass = do
  (i, (pass, keys)) ← type_pass keys 0 pass
  let ended = assign pass (i - 1) 0 >>= λ pass. some (some (pass, keys))
  if ltb i max_word then some none else ended

-- The line that is typed: the keys so far, the last one first.
unfoldable pub in_order : List ℕ → Bytes
in_order [] = []
in_order (c ∷ typed) = in_order typed ++ c ∷ []

-- An editor of one line of at most `max_word - 1` keys: a backspace takes the last key back, and
-- counts as a key on an empty line; an empty line does not end; the line ends with the key that
-- makes it too long, which is dropped.
unfoldable pub edit : List ℕ → List ℕ → Option (Bytes × List ℕ)
unfolding in_order
edit [] [] = none
edit (k ∷ typed) [] = if length typed + 1 == max_word then some (in_order typed, []) else none
edit [] (c ∷ cs) =
    let blank = edit [] cs in let more = edit (c ∷ []) cs in if c == b'\n' then blank else more
edit (k ∷ typed) (c ∷ cs) =
    let shorter = edit typed cs in
    let longer = edit (c ∷ k ∷ typed) cs in
    if length typed + 1 == max_word
    then some (in_order typed, c ∷ cs)
    else if c == backspace
    then shorter
    else if c == b'\n'
    then some (in_order (k ∷ typed), cs)
    else longer
