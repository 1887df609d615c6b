-- ===== src/Marshalling/Encode.antt =====
-- The `marsh…` functions of marshalling.c. Each returns the array and the size that it stores
-- through `size`. Texts are shorter than 2 ^ 31, so that their lengths are values of `int`.
use snuffin.Common.{
  ℕ, zero, suc, ◌+◌, ◌-◌, ◌*◌, ◌%◌, Option, some, ◌>>=◌, List, [], ◌∷◌, ◌++◌, length, get_elem?,
}
use snuffin.Common.Int.{ℤ, pos, pos_part, ◌+ℤ◌, add_int, mul_int}
use snuffin.Libc.Print.{Bytes, show_int}
use snuffin.Libc.Buffer.{store, memcpy, c_string, sprintf, calloc}
use snuffin.Structs.{Point, Board, Player}
use snuffin.Marshalling.Tags.{
  player_tag, string_tag, point_tag, board_tag, server_id_tag, boolean_tag, sep,
}
use snuffin.Marshalling.Places.{num_places}

-- The `%d` of `tag - '0'` that each message begins with.
abbrev pub tag_text : ℕ → Bytes
tag_text tag = show_int (pos (tag - b'0'))

-- The text that `marshPoint` prints: the coordinates are moved by the code of '0'.
abbrev pub point_text : ℤ → ℤ → Bytes
point_text x y = tag_text point_tag ++ show_int x ++ sep ∷ show_int y

unfoldable pub marsh_point : Point → Option (Bytes × ℕ)
marsh_point s = do
  x ← add_int s.x (pos b'0')
  y ← add_int s.y (pos b'0')
  let cant = 1 + 1 + 1 + num_places x + num_places y
  d ← calloc (pos cant)
  d ← sprintf d (point_text x y)
  d ← store d (cant - 1) 0
  some (d, cant)

-- One inner loop: `left` columns are left from `j` on.
unfoldable pub fill_row : List Bytes → ℕ → ℕ → ℕ → ℕ → Bytes → Option Bytes
fill_row board rows i zero j d2 = some d2
fill_row board rows i (suc left) j d2 = do
  row ← get_elem? board i
  c ← get_elem? row j
  d2 ← store d2 (j + i * rows) ((c + b'0') % 256)
  fill_row board rows i left (j + 1) d2

-- The outer loop: `left` rows are left from `i` on.
unfoldable pub fill_rows : List Bytes → ℕ → ℕ → ℕ → ℕ → Bytes → Option Bytes
fill_rows board rows columns zero i d2 = some d2
fill_rows board rows columns (suc left) i d2 = do
  d2 ← fill_row board rows i columns 0 d2
  fill_rows board rows columns left (i + 1) d2

-- `%d%c%d%c`
abbrev pub board_header : Board → Bytes
board_header s = show_int s.rows ++ sep ∷ (show_int s.columns ++ sep ∷ [])

-- `behind` is what the heap holds behind `d2`: that array has no byte for a final 0, and `strcat`
-- reads on until it finds one.
unfoldable pub marsh_board : Bytes → Board → Option (Bytes × ℤ)
marsh_board behind s = do
  let size1 = 1 + 1 + 1 + 1 + num_places s.rows + num_places s.columns
  size2 ← mul_int s.rows s.columns
  d1 ← calloc (pos size1 +ℤ size2)
  d2 ← calloc size2
  d1 ← sprintf d1 (tag_text board_tag ++ board_header s)
  d2 ← fill_rows s.board (pos_part s.rows) (pos_part s.columns) (pos_part s.rows) 0 d2
  head ← c_string d1
  cells ← c_string (d2 ++ behind)
  d1 ← memcpy d1 (head ++ cells ++ 0 ∷ [])
  some (d1, pos size1 +ℤ size2)

unfoldable pub marsh_string : Bytes → Option (Bytes × ℕ)
marsh_string s = do
  text ← c_string s
  let len = length text
  let cant = 1 + 1 + 1 + len + num_places (pos len)
  d ← calloc (pos cant)
  d ← sprintf d (tag_text string_tag ++ show_int (pos len) ++ sep ∷ text)
  d ← store d (cant - 1) 0
  some (d, cant)

-- `%s%c%d%c%d%c%d`
abbrev pub player_fields : Bytes → Player → Bytes
player_fields name p =
    name ++ sep ∷ (show_int p.num ++ sep ∷ (show_int p.score ++ sep ∷ show_int p.ready))

unfoldable pub marsh_player : Player → Option (Bytes × ℕ)
marsh_player p = do
  name ← c_string p.name
  let cant =
      1 + length name + 1 + num_places p.num + 1 + num_places p.score + 1 + num_places p.ready + 1
  d ← calloc (pos cant)
  d ← sprintf d (tag_text player_tag ++ player_fields name p)
  some (d, cant)

unfoldable pub marsh_server_id : ℤ → Option (Bytes × ℕ)
marsh_server_id p = do
  let cant = 1 + num_places p + 1
  d ← calloc (pos cant)
  d ← sprintf d (tag_text server_id_tag ++ show_int p)
  some (d, cant)

unfoldable pub marsh_boolean : ℤ → Option (Bytes × ℕ)
marsh_boolean value = do
  let cant = 1 + num_places value + 1
  d ← calloc (pos cant)
  d ← sprintf d (tag_text boolean_tag ++ show_int value)
  some (d, cant)
