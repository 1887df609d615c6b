-- ===== src/Marshalling/Message.antt =====
-- `marshalling`, `unmarshalling` and `getType` of marshalling.c: the choice by the tag of a message.
use snuffin.Marshalling.Tags.{
  boolean_tag, server_id_tag, player_tag, perdio_tag, termino_tag, point_tag, board_tag, string_tag,
}
use snuffin.Marshalling.Encode.{
  marsh_board, marsh_string, marsh_point, marsh_server_id, marsh_player, marsh_boolean,
}
use snuffin.Libc.Print.{Bytes}
use snuffin.Common.Int.{◌-ℤ◌, ℤ, pos}
use snuffin.Marshalling.Decode.{
  unmarsh_server_id, unmarsh_point, unmarsh_boolean, unmarsh_player, unmarsh_string, unmarsh_board,
  Frame,
}
use snuffin.Common.{
  ◌||◌, get_elem?, ◌>>=◌, ◌==◌, ◌∷◌, if◌then◌else◌, none, some, ℕ, replicate, Option, [],
}
use snuffin.Structs.{Point, Board, Player, StreamData}

-- What the `void *` of these functions points to.
pub data Object : Type 0 where
  null : Object
  text : Bytes → Object
  player : Player → Object
  point : Point → Object
  board : Board → Object
  server_id : ℤ → Object
  boolean : ℤ → Object

-- A pointer to something else than the type says is read as what it is not: `none`.
unfoldable pub encode_text : Object → Option (Bytes × ℤ)
encode_text (text s) = marsh_string s >>= λ (d, n). some (d, pos n)
encode_text _ = none

unfoldable pub encode_board : Bytes → Object → Option (Bytes × ℤ)
encode_board behind (board b) = marsh_board behind b
encode_board behind _ = none

unfoldable pub encode_point : Object → Option (Bytes × ℤ)
encode_point (point p) = marsh_point p >>= λ (d, n). some (d, pos n)
encode_point _ = none

unfoldable pub encode_player : Object → Option (Bytes × ℤ)
encode_player (player p) = marsh_player p >>= λ (d, n). some (d, pos n)
encode_player _ = none

unfoldable pub encode_server_id : Object → Option (Bytes × ℤ)
encode_server_id (server_id n) = marsh_server_id n >>= λ (d, k). some (d, pos k)
encode_server_id _ = none

unfoldable pub encode_boolean : Object → Option (Bytes × ℤ)
encode_boolean (boolean n) = marsh_boolean n >>= λ (d, k). some (d, pos k)
encode_boolean _ = none

abbrev pub stream : Bytes × ℤ → StreamData
stream (aux, size) = record { bytes = some aux; size = size }

-- `behind` is the heap behind the cells of a board, as in `marsh_board`.
unfoldable pub marshalling : Bytes → Object → ℕ → Option StreamData
unfolding encode_text encode_board encode_point encode_player encode_server_id encode_boolean
marshalling behind struc type =
    if type == string_tag
    then (encode_text struc >>= λ r. some (stream r))
    else if type == board_tag
    then (encode_board behind struc >>= λ r. some (stream r))
    else if type == point_tag
    then (encode_point struc >>= λ r. some (stream r))
    else if type == player_tag
    then (encode_player struc >>= λ r. some (stream r))
    else if type == server_id_tag
    then (encode_server_id struc >>= λ r. some (stream r))
    else if type == boolean_tag
    then (encode_boolean struc >>= λ r. some (stream r))
    else some (record { bytes = none; size = pos 0 })

-- The fresh targets that `unmarshalling` allocates; a `char *` has eight bytes.
abbrev pub fresh_string : Bytes
fresh_string = replicate 8 0

abbrev pub fresh_player : Player
fresh_player = record { name = replicate 20 0; num = pos 0; score = pos 0; ready = pos 0 }

abbrev pub fresh_point : Point
fresh_point = record { x = pos 0; y = pos 0 }

abbrev pub fresh_board : Board
fresh_board = record { board = []; rows = pos 0; columns = pos 0 }

unfoldable pub unmarshal_data : Frame → Bytes → ℤ → Option (ℤ × Object)
unmarshal_data frame [] type = none
unmarshal_data frame (tag ∷ rest) type =
    let bytes = tag ∷ rest in
    if tag == string_tag || tag == termino_tag || tag == perdio_tag
    then (unmarsh_string frame bytes fresh_string >>= λ r. some (pos 3, text r.1))
    else if tag == player_tag
    then (unmarsh_player frame bytes fresh_player >>= λ r. some (pos 2, player r.1))
    else if tag == point_tag
    then (unmarsh_point frame bytes fresh_point >>= λ r. some (pos 1, point r.1))
    else if tag == board_tag
    then (unmarsh_board frame bytes fresh_board >>= λ r. some (pos 5, board r.1))
    else if tag == server_id_tag
    then (unmarsh_server_id frame bytes (pos 0) >>= λ r. some (pos 8, server_id r.1))
    else if tag == boolean_tag
    then (unmarsh_boolean bytes (pos 0) >>= λ r. some (pos 4, boolean r.1))
    else some (type, null)

-- `type` is what `*type` holds before the call; it is left where nothing is recognised. The result
-- codes of the `unmarsh…` functions are dropped.
unfoldable pub unmarshalling : Frame → Option StreamData → ℤ → Option (ℤ × Object)
unfolding unmarshal_data
unmarshalling frame none type = some (type, null)
unmarshalling frame (some d) type = elim d.bytes [
  | none ↦ some (type, null)
  | some bytes ↦ unmarshal_data frame bytes type
]

unfoldable pub get_type : StreamData → Option ℤ
get_type sd = do bytes ← sd.bytes; c ← get_elem? bytes 0; some (pos c -ℤ pos b'0')
