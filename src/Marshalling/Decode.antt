-- ===== src/Marshalling/Decode.antt =====
-- The `unmarsh…` functions of marshalling.c. The data is the receiver's whole buffer, and a read or
-- a write behind the end of an array is `none`. The arrays on the stack are not initialised in C, so
-- what they hold on entry is an argument. Each function returns its result code and the target.
use snuffin.Common.{
  ℕ, ◌+◌, ◌-◌, ◌%◌, Option, none, some, ◌>>=◌, List, [], ◌∷◌, ◌++◌, get_elem?, set, ◌==◌, ◌||◌,
  if◌then◌else◌, replicate,
}
use snuffin.Common.Int.{pos_part, neg_part, ℤ, pos, ◌-ℤ◌, ◌+ℤ◌, add_int}
use snuffin.Libc.Print.{Bytes}
use snuffin.Libc.Strtol.{read_int, strtol}
use snuffin.Libc.Buffer.{store, memcpy, c_string, copy_until, calloc}
use snuffin.Structs.{Point, Board, Player}
use snuffin.Marshalling.Tags.{
  player_tag, string_tag, point_tag, board_tag, server_id_tag, boolean_tag, sep,
}

-- The local arrays `nombre`, `num`, `num2` and `num3`, with what they hold on entry.
pub record Frame : Type 0 where
  pub nombre : Bytes
  pub num : Bytes
  pub num2 : Bytes
  pub num3 : Bytes

-- `memcpy(dst, src, strlen(src) + 1)`
unfoldable pub copy_string : Bytes → Bytes → Option Bytes
copy_string dst src = do text ← c_string src; memcpy dst (text ++ 0 ∷ [])

unfoldable pub unmarsh_player_fields : Frame → Bytes → Player → Option (ℕ × Player)
unmarsh_player_fields frame rest p = do
  (nombre, rest) ← copy_until sep rest 0 frame.nombre
  (num, rest) ← copy_until sep rest 0 frame.num
  (num2, rest) ← copy_until sep rest 0 frame.num2
  (num3, rest) ← copy_until 0 rest 0 frame.num3
  m ← read_int num
  n ← read_int num2
  o ← read_int num3
  name ← copy_string p.name nombre
  some (1, record { name = name; num = m; score = n; ready = o })

unfoldable pub unmarsh_player : Frame → Bytes → Player → Option (ℕ × Player)
unfolding unmarsh_player_fields
unmarsh_player frame [] p = none
unmarsh_player frame (tag ∷ rest) p =
    if tag == player_tag then unmarsh_player_fields frame rest p else some (0, p)

unmarsh_server_id_field : Frame → Bytes → Option (ℕ × ℤ)
unmarsh_server_id_field frame rest = do
  (num, rest) ← copy_until 0 rest 0 frame.num
  m ← read_int num
  some (1, m)

unfoldable pub unmarsh_server_id : Frame → Bytes → ℤ → Option (ℕ × ℤ)
unfolding unmarsh_server_id_field
unmarsh_server_id frame [] p = none
unmarsh_server_id frame (tag ∷ rest) p =
    if tag == server_id_tag then unmarsh_server_id_field frame rest else some (0, p)

-- Both coordinates go through the one array `num`.
unfoldable pub unmarsh_point_fields : Frame → Bytes → Option (ℕ × Point)
unmarsh_point_fields frame rest = do
  (num, rest) ← copy_until sep rest 0 frame.num
  m ← read_int num
  x ← add_int m (pos 0 -ℤ pos b'0')
  (num, rest) ← copy_until 0 rest 0 num
  m ← read_int num
  y ← add_int m (pos 0 -ℤ pos b'0')
  some (1, record { x = x; y = y })

unfoldable pub unmarsh_point : Frame → Bytes → Point → Option (ℕ × Point)
unfolding unmarsh_point_fields
unmarsh_point frame [] p = none
unmarsh_point frame (tag ∷ rest) p =
    if tag == point_tag then unmarsh_point_fields frame rest else some (0, p)

unfoldable pub unmarsh_string_fields : Frame → Bytes → Bytes → Option (ℕ × Bytes)
unmarsh_string_fields frame rest s = do
  (num, rest) ← copy_until sep rest 0 frame.num
  m ← strtol num
  aux ← calloc (m +ℤ pos 1)
  (aux, rest) ← copy_until 0 rest 0 aux
  s ← copy_string s aux
  some (1, s)

unfoldable pub unmarsh_string : Frame → Bytes → Bytes → Option (ℕ × Bytes)
unfolding unmarsh_string_fields
unmarsh_string frame [] s = none
unmarsh_string frame (tag ∷ rest) s =
    if tag == string_tag then unmarsh_string_fields frame rest s else some (0, s)

unfoldable pub boolean_value : Bytes → ℤ → Option (ℕ × ℤ)
boolean_value [] value = none
boolean_value (c ∷ rest) value =
    if c == b'1' || c == b'0' then some (1, pos (c - b'0')) else some (0, value)

unfoldable pub unmarsh_boolean : Bytes → ℤ → Option (ℕ × ℤ)
unfolding boolean_value
unmarsh_boolean [] value = none
unmarsh_boolean (tag ∷ rest) value =
    if tag == boolean_tag then boolean_value rest value else some (0, value)

-- `board[k][j] = data[i] - '0'`
unfoldable pub set_cell : List Bytes → ℕ → ℕ → ℕ → Option (List Bytes)
set_cell board k j c = do row ← get_elem? board k; row ← store row j c; some (set board k row)

-- The loop over the cells. `k` is the row number plus one, since it starts at -1; the first cell
-- always begins a row. A remainder by zero columns is undefined.
unfoldable pub fill_board : ℕ → Bytes → ℕ → ℕ → ℕ → List Bytes → Option (List Bytes)
unfolding set_cell
fill_board columns [] k j cont board = none
fill_board columns (d ∷ rest) k j cont board =
    let new_row = cont % columns == 0 in
    let k' = if new_row then k + 1 else k in
    let j' = if new_row then 0 else j in
    let next =
      (set_cell board (k' - 1) j' ((d + 256 - b'0') % 256) >>= λ b.
      fill_board columns rest k' (j' + 1) (cont + 1) b) in
    if d == 0 then some board else if columns == 0 then none else next

-- An allocation of a negative size is the null pointer, on which each access is undefined, as on
-- an empty array.
unfoldable pub calloc_board : ℤ → ℤ → List Bytes
calloc_board f c = replicate (pos_part f) (replicate (pos_part c) 0)

unfoldable pub unmarsh_board_fields : Frame → Bytes → Option (ℕ × Board)
unfolding fill_board calloc_board
unmarsh_board_fields frame rest = do
  (num, rest) ← copy_until sep rest 0 frame.num
  (num2, rest) ← copy_until sep rest 0 frame.num2
  f ← read_int num
  c ← read_int num2
  board ← fill_board (pos_part c + neg_part c) rest 0 0 0 (calloc_board f c)
  some (1, record { board = board; rows = f; columns = c })

unfoldable pub unmarsh_board : Frame → Bytes → Board → Option (ℕ × Board)
unfolding unmarsh_board_fields
unmarsh_board frame [] b = none
unmarsh_board frame (tag ∷ rest) b =
    if tag == board_tag then unmarsh_board_fields frame rest else some (0, b)
