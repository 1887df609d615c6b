-- ===== src/Marshalling/Grid/Write.antt =====
-- `marshBoard` on a square board.
use snuffin.Marshalling.Sizes.{board_tag_text}
use snuffin.Marshalling.Places.{num_places-eq, num_places}
use snuffin.Marshalling.Fields.{show_int-Lacks_zero}
use snuffin.Common.Int.{mul_int-pos, int_laws, ◌+ℤ◌, pos}
use snuffin.Marshalling.Tags.{sep, board_tag}
use snuffin.Libc.Buffer.{
  memcpy_whole, memcpy_overflow, c_string-append, c_string_lem, memcpy_lem, memcpy, calloc, sprintf,
  c_string, Lacks, store_middle,
}
use snuffin.Marshalling.Grid.Shape.{
  length-cell_text, cell_text-Lacks, square, IsSquare, length-map, cell_text, IsRow, cell_code,
}
use snuffin.Libc.Print.{show_int, Bytes}
use snuffin.Marshalling.Encode.{marsh_board, board_header, fill_rows, fill_row}
use snuffin.Common.{
  get_middle, append-nil, none, ◌>>=◌, ◌^◌, ◌<◌, All-append, length-replicate, replicate, ◌∙◌, ap,
  length-drop, All, append_assoc, length-append, sym, arith, drop, map, ◌≤◌, refl, ◌*◌, [], ◌+◌,
  length, some, ◌≡◌, ◌∷◌, ◌++◌, ℕ, get_elem?, List,
}

-- The inner loop from column j on overwrites as many bytes as there are cells left.
fill_row_lem :
    (board : List Bytes) (n i j : ℕ) (row front cells pre old : Bytes)
    → get_elem? board i ≡ some row
    → row ≡ front ++ cells
    → j ≡ length front
    → j + i * n ≡ length pre
    → length cells ≤ length old
    → fill_row board n i (length cells) j (pre ++ old)
      ≡ some (pre ++ (map cell_code cells ++ drop (length cells) old))
unfolding fill_row
fill_row_lem board n i j row front [] pre old e s f k room = refl
fill_row_lem board n i j row front (c ∷ cells) pre [] e s f k room = absurd (omega arith)
fill_row_lem board n i j row front (c ∷ cells) pre (o ∷ old) e s f k room =
    let written : Bytes = cell_code c ∷ [] in
    let after : Bytes = map cell_code cells ++ drop (length cells) old in
    rw (e, s, f, get_middle front c cells, sym f, k, store_middle pre o (cell_code c) old)
      (ap (fill_row board n i (length cells) (j + 1)) (sym (append_assoc pre written old))
        ∙ fill_row_lem board n i (j + 1) row (front ++ c ∷ []) cells (pre ++ written) old e
            (s ∙ sym (append_assoc front (c ∷ []) cells))
            (omega (arith, length-append front (c ∷ []))) (omega (arith, length-append pre written))
            (omega arith)
        ∙ ap some (append_assoc pre written after))

-- The outer loop from row i on fills the rest of the array.
fill_rows_lem :
    (board : List Bytes) (n i : ℕ) (done rest : List Bytes) (pre old : Bytes)
    → board ≡ done ++ rest
    → i ≡ length done
    → All (IsRow n) rest
    → i * n ≡ length pre
    → length old ≡ length rest * n
    → fill_rows board n n (length rest) i (pre ++ old) ≡ some (pre ++ cell_text rest)
unfolding fill_rows
fill_rows_lem board n i done [] pre [] e f h k room = refl
fill_rows_lem board n i done [] pre (o ∷ old) e f h k room = absurd (omega arith)
fill_rows_lem board n i done (row ∷ rest) pre old e f h k room =
    let codes = map cell_code row in
    let size : length codes ≡ n = length-map cell_code row ∙ h.0.0 in
    let here : get_elem? board i ≡ some row = rw (e, f) (get_middle done row rest) in
    let first : fill_row board n i (length row) 0 (pre ++ old)
        ≡ some (pre ++ (codes ++ drop (length row) old)) =
      fill_row_lem board n i 0 row [] row pre old here refl refl (omega arith)
        (omega (arith, h.0.0)) in
    let left : length (drop n old) ≡ length rest * n = omega (arith, length-drop n old) in
    rw (rw h.0.0 at first) (
      ap (fill_rows board n n (length rest) (i + 1)) (sym (append_assoc pre codes (drop n old)))
      ∙ fill_rows_lem board n (i + 1) (done ++ row ∷ []) rest (pre ++ codes) (drop n old)
          (e ∙ sym (append_assoc done (row ∷ []) rest))
          (omega (arith, length-append done (row ∷ []))) h.1
          (omega (arith, length-append pre codes)) left
      ∙ ap some (append_assoc pre codes (cell_text rest)))

-- The text of the message.
abbrev pub board_text : ℕ → List Bytes → Bytes
board_text n rows = board_tag ∷ board_header (square n rows) ++ cell_text rows

header_Lacks : (n : ℕ) → Lacks 0 (board_tag ∷ board_header (square n []))
header_Lacks n =
    let number : Lacks 0 (show_int (pos n)) = show_int-Lacks_zero (pos n) in
    (
      omega arith,
      All-append _ (show_int (pos n)) _ number
          (omega arith, All-append _ (show_int (pos n)) (sep ∷ []) number (omega arith, tt)),
    )

-- The square board's cells, in the array d2 of zeros.
fill_square :
    (n : ℕ) (rows : List Bytes)
    → IsSquare n rows
    → fill_rows rows n n n 0 (replicate (n * n) 0) ≡ some (cell_text rows)
fill_square n rows h =
    let zeros : Bytes = replicate (n * n) 0 in
    let size : length zeros ≡ n * n = length-replicate {A = ℕ} (n * n) 0 in
    let filled =
      fill_rows_lem rows n 0 [] rows [] zeros refl refl h.1 (omega arith)
        (size ∙ ap (λ m. m * n) (sym h.0)) in
    rw h.0 at filled

-- `extra` is the string that the heap holds behind the cells.
module _ (n : ℕ) (rows : List Bytes) (behind extra : Bytes) (square_rows : IsSquare n rows)
    (small : n * n < 2 ^ 31) (n_small : n < 2 ^ 31) (heap : c_string behind ≡ some extra) where
  head : Bytes
  head = board_tag ∷ board_header (square n rows)

  size1 : ℕ
  size1 = 1 + 1 + 1 + 1 + num_places (pos n) + num_places (pos n)

  size1-eq : size1 ≡ length head + 1
  unfolding size1 head
  size1-eq = omega (
    arith,
    num_places-eq (pos n) (n_small, omega arith),
    length-append (show_int (pos n)) (sep ∷ (show_int (pos n) ++ sep ∷ [])),
    length-append (show_int (pos n)) (sep ∷ []),
  )

  -- What `marshBoard` returns, as the last copy of the text.
  board_copy :
      (d1 : Bytes) × (length d1 ≡ length head + 1 + n * n)
      × (marsh_board behind (square n rows) ≡ (
          memcpy d1 (head ++ (cell_text rows ++ extra) ++ 0 ∷ []) >>= λ d.
          some (d, pos (size1 + n * n))))
  unfolding marsh_board sprintf calloc head size1
  board_copy =
      let zeros : Bytes = replicate (size1 + n * n) 0 in
      let size : length zeros ≡ size1 + n * n = length-replicate {A = ℕ} (size1 + n * n) 0 in
      let first : Bytes = head ++ 0 ∷ [] in
      let first_size : length first ≡ length head + 1 = length-append head (0 ∷ []) in
      let rest : Bytes = drop (length first) zeros in
      let sum : pos size1 +ℤ pos (n * n) ≡ pos (size1 + n * n) = omega int_laws in
      (
        head ++ 0 ∷ rest,
        omega (arith, length-append head (0 ∷ rest), length-drop (length first) zeros, size1-eq),
        rw (
          mul_int-pos n n small,
          sum,
          board_tag_text,
          memcpy_lem zeros first (omega (arith, size1-eq)),
          fill_square n rows square_rows,
          append_assoc head (0 ∷ []) rest,
          c_string_lem head rest (header_Lacks n),
          c_string-append (cell_text rows) behind (cell_text-Lacks n rows square_rows.1) heap,
        ),
      )

  length-text : length (head ++ cell_text rows) ≡ length head + n * n
  length-text = omega (
    arith,
    length-append head (cell_text rows),
    length-cell_text n rows square_rows.1,
    ap (λ m. m * n) square_rows.0,
  )

  ended :
      extra ≡ []
      → marsh_board behind (square n rows)
        ≡ some (head ++ cell_text rows ++ 0 ∷ [], pos (length (head ++ cell_text rows) + 1))
  ended e =
      let (d1, size, copy) = board_copy in
      let whole : Bytes = head ++ cell_text rows ++ 0 ∷ [] in
      let full : length whole ≡ length (head ++ cell_text rows) + 1 =
        length-append (head ++ cell_text rows) (0 ∷ []) in
      let total : size1 + n * n ≡ length (head ++ cell_text rows) + 1 =
        omega (arith, length-text, size1-eq) in
      let same : length d1 ≡ length whole = omega (arith, length-text) in
      copy ∙ rw (e, append-nil, memcpy_whole d1 whole same, total)

  overrun : (c : ℕ) (more : Bytes) → extra ≡ c ∷ more → marsh_board behind (square n rows) ≡ none
  overrun c more e =
      let (d1, size, copy) = board_copy in
      let whole : Bytes = head ++ (cell_text rows ++ extra) ++ 0 ∷ [] in
      let longer : length d1 < length whole = omega (
        arith,
        length-append (head ++ (cell_text rows ++ extra)) (0 ∷ []),
        length-append head (cell_text rows ++ extra),
        length-append (cell_text rows) extra,
        length-append head (cell_text rows),
        length-text,
        ap length e,
      ) in
      copy ∙ rw (memcpy_overflow d1 whole longer)

-- If the heap holds a 0 behind the cells, the message is the header and the cells, row by row, and
-- fills its array.
pub marsh_board_lem :
    (n : ℕ) (rows : List Bytes) (behind : Bytes)
    → IsSquare n rows
    → n * n < 2 ^ 31
    → n < 2 ^ 31
    → c_string behind ≡ some []
    → marsh_board behind (square n rows)
      ≡ some (board_text n rows ++ 0 ∷ [], pos (length (board_text n rows) + 1))
unfolding head
marsh_board_lem n rows behind h small n_small heap =
    ended n rows behind [] h small n_small heap refl

-- Any other byte there makes `strcat` write behind the end of the message's array.
pub marsh_board-overread :
    (n : ℕ) (rows : List Bytes) (behind : Bytes) (c : ℕ) (more : Bytes)
    → IsSquare n rows
    → n * n < 2 ^ 31
    → n < 2 ^ 31
    → c_string behind ≡ some (c ∷ more)
    → marsh_board behind (square n rows) ≡ none
marsh_board-overread n rows behind c more h small n_small heap =
    overrun n rows behind (c ∷ more) h small n_small heap c more refl
