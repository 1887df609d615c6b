-- ===== src/GameClient/LogIn.antt =====
-- How the dialogue of client.c ends: what is sent until the server lets the player in.
use snuffin.GameClient.Editor.{get_pass-edit}
use snuffin.Common.Int.{pos}
use snuffin.Libc.Buffer.{c_string_lem, memcpy_string, c_string, memcpy, Lacks}
use snuffin.GameClient.Lobby.{max_word}
use snuffin.GameClient.Hear.{hear_boolean-flag, say_text_lem, IsQuiet, string_sent}
use snuffin.ChildServer.Start.{flag}
use snuffin.Structs.{StreamData}
use snuffin.GameClient.Typing.{edit}
use snuffin.Com.Transport.{received, Incoming}
use snuffin.Libc.Print.{Bytes}
use snuffin.GameClient.Dialogue.{
  skip_spaces, word_from, Talk, get_name, get_information, ask_again, try_password,
}
use snuffin.Common.{
  ◌^◌, length-append, refl, append_assoc, ◌+◌, replicate, ap, ◌∙◌, if◌then◌else◌, drop, ◌++◌, arith,
  ◌==◌, some, ◌<◌, ◌≡◌, map, length, [], ℕ, Bool, List, true, false, ◌∷◌,
}

-- The lines that are typed on the keys, one after the other.
unfoldable pub Types : List ℕ → List Bytes → Type 0
Types keys [] = Unit
Types keys (line ∷ later) =
    (rest : List ℕ) × (edit [] keys ≡ some (line, rest)) × Lacks 0 line × Types rest later

try_password_lem :
    (keys : List ℕ) (line : Bytes) (rest : List ℕ) (value : Bool) (password : Bytes) (room : ℕ)
    (t : Talk)
    → edit [] keys ≡ some (line, rest)
    → Lacks 0 line
    → length password ≡ max_word
    → 2 < room
    → IsQuiet room t
    → (t' : Talk) × (password' : Bytes) × (try_password keys (received (flag value)) password t
        ≡ some (some (pos (if value then 1 else 0), (password', (rest, t')))))
      × (length password' ≡ max_word)
      × IsQuiet room t'
      × (t'.sent ≡ t.sent ++ string_sent line ∷ [])
unfolding try_password
try_password_lem keys line rest value password room t typed lacks size wide quiet =
    let (junk, got, size') = (get_pass-edit keys password size).1 line rest typed in
    let ended : c_string (line ++ 0 ∷ junk) ≡ some line = c_string_lem line junk lacks in
    let short : length line < 2 ^ 31 = omega (arith, size', length-append line (0 ∷ junk)) in
    let said = say_text_lem (line ++ 0 ∷ junk) line t ended short in
    let quiet0 : IsQuiet room (record t { sent = t.sent ++ string_sent line ∷ [] }) = record {
      none_left = quiet.none_left;
      size = quiet.size;
    } in
    let (t', heard, quiet', same) = hear_boolean-flag value room _ wide quiet0 in
    (t', line ++ 0 ∷ junk, rw (got, said, heard) refl, size', quiet', same)

-- FALSE to each line, and the messages with the lines.
abbrev pub refusals : List Bytes → List Incoming
refusals lines = map (λ (line : Bytes). received (flag false)) lines

abbrev pub strings : List Bytes → List StreamData
strings lines = map string_sent lines

ask_again-ends :
    (wrong : List Bytes) (right : Bytes) (keys : List ℕ) (later : List Incoming) (password : Bytes)
    (room : ℕ) (t : Talk)
    → Types keys (wrong ++ right ∷ [])
    → length password ≡ max_word
    → 2 < room
    → IsQuiet room t
    → (t' : Talk) × (ask_again (refusals wrong ++ received (flag true) ∷ later) keys password t
        ≡ some (some t'))
      × IsQuiet room t'
      × (t'.sent ≡ t.sent ++ (strings wrong ++ string_sent right ∷ []))
unfolding ask_again Types
ask_again-ends [] right keys later password room t (rest, typed, lacks, _) size wide quiet =
    let (t', p', tried, size', quiet', sent) =
      try_password_lem keys right rest true password room t typed lacks size wide quiet in
    (t', rw (tried) refl, quiet', sent)
ask_again-ends (w ∷ wrong) right keys later password room t (rest, typed, lacks, types) size wide
      quiet =
    let (t1, p1, tried, size1, quiet1, sent1) =
      try_password_lem keys w rest false password room t typed lacks size wide quiet in
    let (t', ended, quiet', sent) =
      ask_again-ends wrong right rest later p1 room t1 types size1 wide quiet1 in
    (
      t',
      rw (tried) ended,
      quiet',
      sent
          ∙ ap (λ l. l ++ (strings wrong ++ string_sent right ∷ [])) sent1
          ∙ append_assoc t.sent (string_sent w ∷ []) (strings wrong ++ string_sent right ∷ []),
    )

-- The dialogue by which a player gets in. The input, as `scanf` and then `getchar` find it, is a word
-- and keys on which lines are typed one after the other, each with the keys that the one before has
-- left. The word is sent as the name; then each line is sent as a password, until the server answers
-- TRUE to one; nothing else is sent, and no message is left. The name has from 1 to 19 bytes, neither
-- it nor a line has a 0, the client's buffer has room for an answer, each answer arrives whole and
-- alone, and no message was left. That `kbhit` does not keep `getchar` from a key is assumed.
pub get_information-ends :
    (input name : Bytes) (known : Bool) (wrong : List Bytes) (right : Bytes) (later : List Incoming)
    (room : ℕ) (t : Talk)
    → word_from 20 (skip_spaces input) ≡ name
    → 0 < length name
    → length name < max_word
    → Lacks 0 name
    → Types (drop (length name) (skip_spaces input)) (wrong ++ right ∷ [])
    → 2 < room
    → IsQuiet room t
    → (t' : Talk) × (get_information input
          (received (flag known))
          (refusals wrong ++ received (flag true) ∷ later)
          t
        ≡ some (some t'))
      × IsQuiet room t'
      × (t'.sent ≡ t.sent ++ string_sent name ∷ (strings wrong ++ string_sent right ∷ []))
unfolding get_information get_name
get_information-ends input name known wrong right later room t word there fits lacks types wide
      quiet =
    let zeros : Bytes = drop (length name + 1) (replicate max_word 0) in
    let empty : (length name == 0) ≡ false = ground (arith, there) in
    let stored : memcpy (replicate max_word 0) (name ++ 0 ∷ []) ≡ some (name ++ 0 ∷ zeros) =
      memcpy_string (replicate max_word 0) name fits in
    let ended : c_string (name ++ 0 ∷ zeros) ≡ some name = c_string_lem name zeros lacks in
    let said = say_text_lem (name ++ 0 ∷ zeros) name t ended (omega (arith, fits)) in
    let quiet0 : IsQuiet room (record t { sent = t.sent ++ string_sent name ∷ [] }) = record {
      none_left = quiet.none_left;
      size = quiet.size;
    } in
    let (t1, heard, quiet1, sent1) = hear_boolean-flag known room _ wide quiet0 in
    let t2 : Talk = record t1 { my_name = name ++ 0 ∷ zeros } in
    let quiet2 : IsQuiet room t2 = record { none_left = quiet1.none_left; size = quiet1.size } in
    let (t', asked, quiet', sent) =
      ask_again-ends wrong right (drop (length name) (skip_spaces input)) later
        (replicate max_word 0) room t2 types refl wide quiet2 in
    (
      t',
      rw (word, empty, stored, said, heard, ended, stored) asked,
      quiet',
      sent
          ∙ ap (λ l. l ++ (strings wrong ++ string_sent right ∷ [])) sent1
          ∙ append_assoc t.sent (string_sent name ∷ []) (strings wrong ++ string_sent right ∷ []),
    )
