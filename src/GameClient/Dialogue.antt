-- ===== src/GameClient/Dialogue.antt =====
-- `getInformation` of client.c and what it calls: the dialogue by which a player gets into a lobby.
-- What is printed is left out.
use snuffin.Common.{drop}
use snuffin.Marshalling.Tags.{string_tag}
use snuffin.Marshalling.Decode.{unmarsh_boolean}
use snuffin.GameClient.Lobby.{max_word}
use snuffin.Libc.Buffer.{c_string, memcpy}
use snuffin.Marshalling.Message.{text, marshalling}
use snuffin.Structs.{StreamData}
use snuffin.GameClient.Typing.{get_pass}
use snuffin.Common.Int.{pos, eqb_ℤ, ℤ}
use snuffin.ComWrapper.Reader.{read_data, Reader}
use snuffin.Libc.Print.{Bytes}
use snuffin.Common.{
  ◌&&◌, ◌++◌, leb, length, replicate, none, ◌||◌, zero, ◌>>=◌, some, ◌==◌, suc, if◌then◌else◌,
  Option, ◌∷◌, Bool, [], ℕ, List,
}
use snuffin.Com.Transport.{Incoming}

abbrev pub is_space : ℕ → Bool
is_space c = c == b' ' || (leb 9 c && leb c 13)

-- What `scanf` with `%20s` takes of the input: at most `n` characters up to a space, behind spaces.
unfoldable pub word_from : ℕ → Bytes → Bytes
word_from zero s = []
word_from (suc n) [] = []
word_from (suc n) (c ∷ s) = let rest = word_from n s in if is_space c then [] else c ∷ rest

unfoldable pub skip_spaces : Bytes → Bytes
skip_spaces [] = []
skip_spaces (c ∷ s) = let rest = skip_spaces s in if is_space c then rest else c ∷ s

-- At the end of the input nothing is stored. The result has what is left of the input, which
-- begins with the space behind the word.
unfoldable pub get_name : Bytes → Bytes → Option (Bytes × Bytes)
unfolding word_from skip_spaces
get_name input name =
    let word = word_from 20 (skip_spaces input) in
    let rest = drop (length word) (skip_spaces input) in
    if length word == 0
    then some (name, rest)
    else (memcpy name (word ++ 0 ∷ []) >>= λ name. some (name, rest))

-- The globals `buffer` and `myName`, those of comWrapper.c, and the messages sent so far.
pub record Talk : Type 0 where
  pub buffer : Bytes
  pub my_name : Bytes
  pub reader : Reader
  pub sent : List StreamData

unfoldable pub say_text : Bytes → Talk → Option Talk
say_text s t = do
  d ← marshalling [] (text s) string_tag
  some (record t { sent = t.sent ++ d ∷ [] })

-- `readData` and `unmarshBoolean`; `value` stays as it is if something else has come.
unfoldable pub hear_boolean : Incoming → ℤ → Talk → Option (ℤ × Talk)
hear_boolean incoming value t = do
  got ← read_data t.reader incoming t.buffer
  (rta, value) ← unmarsh_boolean got.bytes value
  some (value, record t { reader = got.reader; buffer = got.bytes })

-- A password and the answer to it; `some none` while it is typed. The array is the one of before.
-- The keys that are not read stay for the next password.
unfoldable pub try_password :
    List ℕ → Incoming → Bytes → Talk → Option (Option (ℤ × (Bytes × (List ℕ × Talk))))
unfolding say_text hear_boolean
try_password keys incoming password t = get_pass keys password >>= λ typed. elim typed [
  | none ↦ some none
  | some (password, rest) ↦ do
    t ← say_text password t
    (value, t) ← hear_boolean incoming (pos 0) t
    some (some (value, (password, (rest, t))))
]

-- The loop at the end, each entry what comes after an attempt; `some none` while it goes on.
unfoldable pub ask_again : List Incoming → List ℕ → Bytes → Talk → Option (Option Talk)
unfolding try_password
ask_again [] keys password t = some none
ask_again (incoming ∷ answers) keys password t = try_password keys incoming password t >>= λ tried.
    elim tried [
      | none ↦ some none
      | some (w_pass, (password, (rest, t))) ↦
          let again = ask_again answers rest password t in
          if eqb_ℤ w_pass (pos 0) then again else some (some t)
    ]

-- `input` is what `scanf` and `getchar` find; `first` is what the connection brings after the name,
-- and `answers` begins with what it brings after the first password.
unfoldable pub get_information : Bytes → Incoming → List Incoming → Talk → Option (Option Talk)
unfolding get_name ask_again
get_information input first answers t = do
  (name, keys) ← get_name input (replicate max_word 0)
  t ← say_text name t
  (belongs, t) ← hear_boolean first (pos 0) t
  name_text ← c_string name
  my_name ← memcpy (replicate max_word 0) (name_text ++ 0 ∷ [])
  ask_again answers keys (replicate max_word 0) (record t { my_name = my_name })
