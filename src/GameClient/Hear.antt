-- ===== src/GameClient/Hear.antt =====
-- What the client says to the server in the dialogue of client.c, and how it hears the answers.
use snuffin.Marshalling.Sizes.{marsh_string_lem}
use snuffin.ComWrapper.Single.{read_data-single}
use snuffin.ChildServer.Start.{flag}
use snuffin.Com.Transport.{received}
use snuffin.ChildServer.Login.{string_message}
use snuffin.Common.Int.{pos}
use snuffin.ComWrapper.Queue.{IsPending}
use snuffin.Marshalling.Tags.{boolean_tag}
use snuffin.Structs.{StreamData}
use snuffin.Marshalling.Message.{marshalling}
use snuffin.Libc.Buffer.{c_string, Lacks}
use snuffin.Marshalling.Decode.{unmarsh_boolean}
use snuffin.Libc.Print.{Bytes}
use snuffin.GameClient.Dialogue.{Talk, hear_boolean, say_text}
use snuffin.Common.{
  ◌∙◌, ap, ◌+◌, ◌^◌, ◌++◌, refl, length, [], ◌≡◌, ◌<◌, some, if◌then◌else◌, arith, Bool, ℕ, true,
  false, ◌∷◌,
}

pub unmarsh_boolean-flag :
    (value : Bool) (rest : Bytes)
    → unmarsh_boolean (boolean_tag ∷ (if value then b'1' else b'0') ∷ rest) (pos 0)
      ≡ some (1, pos (if value then 1 else 0))
unfolding unmarsh_boolean
unmarsh_boolean-flag true rest = refl
unmarsh_boolean-flag false rest = refl

abbrev pub bits : Bool → Bytes
bits value = boolean_tag ∷ (if value then b'1' else b'0') ∷ []

pub bits-Lacks : (value : Bool) → Lacks 0 (bits value)
bits-Lacks true = (ground arith, (ground arith, tt))
bits-Lacks false = (ground arith, (ground arith, tt))

-- Nothing of what came is left, and the buffer has its size.
pub record IsQuiet (room : ℕ) (t : Talk) : Type 0 where
  pub none_left : IsPending t.reader []
  pub size : length t.buffer ≡ room

-- What the server sends as TRUE or FALSE is heard as 1 or 0, if nothing else has come before, and the
-- client's buffer has room for it.
pub hear_boolean-flag :
    (value : Bool) (room : ℕ) (t : Talk)
    → 2 < room
    → IsQuiet room t
    → (t' : Talk) × (hear_boolean (received (flag value)) (pos 0) t
        ≡ some (pos (if value then 1 else 0), t'))
      × IsQuiet room t'
      × (t'.sent ≡ t.sent)
unfolding hear_boolean
hear_boolean-flag value room t wide quiet =
    let (out, rest, read, bytes, size, none_left) =
      read_data-single t.reader (bits value) t.buffer quiet.none_left (bits-Lacks value)
        (omega (arith, wide, quiet.size)) in
    let heard : unmarsh_boolean out.bytes (pos 0) ≡ some (1, pos (if value then 1 else 0)) =
      ap (λ b. unmarsh_boolean b (pos 0)) bytes ∙ unmarsh_boolean-flag value _ in
    (
      record t { reader = out.reader; buffer = out.bytes },
      rw (read, heard) refl,
      record { none_left = none_left; size = size ∙ quiet.size },
      refl,
    )

-- A string, with the 0 that ends it, as it is sent.
abbrev pub string_sent : Bytes → StreamData
string_sent s = record {
  bytes = some (string_message s ++ 0 ∷ []);
  size = pos (length (string_message s) + 1);
}

pub say_text_lem :
    (s line : Bytes) (t : Talk)
    → c_string s ≡ some line
    → length line < 2 ^ 31
    → say_text s t ≡ some (record t { sent = t.sent ++ string_sent line ∷ [] })
unfolding say_text marshalling
say_text_lem s line t ended size = rw (marsh_string_lem s line ended size) refl
