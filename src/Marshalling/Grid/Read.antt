-- ===== src/Marshalling/Grid/Read.antt =====
-- `unmarshBoard` on the text of a square board.
use snuffin.Marshalling.Encode.{marsh_board}
use snuffin.Marshalling.Fields.{read_field, sep_field, Fits}
use snuffin.Common.Int.{pos}
use snuffin.Structs.{Board}
use native.Mathlib.Nat.{mul-mod_left, mul-add-mod_self_right, mod-eq_of_lt}
use snuffin.Libc.Buffer.{c_string, store_middle}
use snuffin.Marshalling.Grid.Write.{marsh_board_lem}
use snuffin.Marshalling.Grid.Shape.{square, cell_text, IsRow, IsSquare, cell_code, IsCell}
use snuffin.Libc.Print.{Bytes}
use snuffin.Marshalling.Decode.{Frame, unmarsh_board, calloc_board, set_cell, fill_board}
use snuffin.Common.{
  get_middle, inr, ◌>>=◌, length-append, inl, append_assoc, ◌==◌, Bool-cases, sym, ap₂, ap,
  replicate, refl, map, [], All, ◌∙◌, suc, set_middle, some, arith, ◌≢◌, length, ◌≡◌, ◌%◌, ◌+◌, ◌∷◌,
  ◌++◌, ◌*◌, ◌<◌, List, ◌≤◌, ℕ,
}

mod_mul : (k n : ℕ) → 1 ≤ n → (k * n) % n ≡ 0
mod_mul k n h = mul-mod_left k n

mod_mul_add : (k n j : ℕ) → j < n → (k * n + j) % n ≡ j
mod_mul_add k n j h = mul-add-mod_self_right k n j ∙ mod-eq_of_lt h

set_cell_lem :
    (done : List Bytes) (front : Bytes) (z c : ℕ) (zeros : Bytes) (after : List Bytes)
    → set_cell (done ++ (front ++ z ∷ zeros) ∷ after) (length done) (length front) c
      ≡ some (done ++ (front ++ c ∷ zeros) ∷ after)
unfolding set_cell
set_cell_lem done front z c zeros after = rw (
  get_middle done (front ++ z ∷ zeros) after,
  store_middle front z c zeros,
  set_middle done (front ++ z ∷ zeros) after (front ++ c ∷ zeros),
)

-- A cell in the row that was begun.
same_row :
    (n : ℕ) (rest : Bytes) (k j cont c : ℕ) (board : List Bytes) {b : List Bytes}
    → IsCell c
    → 1 ≤ n
    → cont % n ≢ 0
    → set_cell board k j c ≡ some b
    → fill_board n (cell_code c ∷ rest) (suc k) j cont board
      ≡ fill_board n rest (suc k) (j + 1) (cont + 1) b
unfolding fill_board
same_row n rest k j cont c board h some_column h' e = ground arith

-- The first cell of a row.
next_row :
    (n : ℕ) (rest : Bytes) (k j cont c : ℕ) (board : List Bytes) {b : List Bytes}
    → IsCell c
    → 1 ≤ n
    → cont % n ≡ 0
    → set_cell board k 0 c ≡ some b
    → fill_board n (cell_code c ∷ rest) k j cont board ≡ fill_board n rest (suc k) 1 (cont + 1) b
unfolding fill_board
next_row n rest k j cont c board h some_column h' e = ground arith

-- The rest of a row, behind the cells `front` that are there.
rest_of_row :
    (n k j : ℕ) (unread : Bytes) (done : List Bytes) (front cells : Bytes) (after : List Bytes)
    → All IsCell cells
    → k ≡ length done
    → j ≡ length front
    → 1 ≤ j
    → j + length cells ≡ n
    → fill_board n
        (map cell_code cells ++ unread)
        (suc k)
        j
        (k * n + j)
        (done ++ (front ++ replicate (length cells) 0) ∷ after)
      ≡ fill_board n unread (suc k) n (suc k * n) (done ++ (front ++ cells) ∷ after)
rest_of_row n k j unread done front [] after h e f begun full =
    let last : j ≡ n = omega arith in
    let count : k * n + j ≡ suc k * n = grind arith in
    ap₂ (λ a b. fill_board n unread (suc k) a b (done ++ (front ++ []) ∷ after)) last count
rest_of_row n k j unread done front (c ∷ cells) after h e f begun full =
    let zeros : Bytes = replicate (length cells) 0 in
    let text : Bytes = map cell_code cells ++ unread in
    let inside : (k * n + j) % n ≢ 0 = omega (arith, mod_mul_add k n j (omega arith)) in
    let written : set_cell (done ++ (front ++ 0 ∷ zeros) ∷ after) k j c
        ≡ some (done ++ (front ++ c ∷ zeros) ∷ after) =
      rw (e, f) (set_cell_lem done front 0 c zeros after) in
    let count : k * n + j + 1 ≡ k * n + (j + 1) = omega arith in
    same_row n text k j (k * n + j) c _ h.0 (omega arith) inside written
    ∙ ap₂ (λ row cont. fill_board n text (suc k) (j + 1) cont (done ++ row ∷ after))
        (sym (append_assoc front (c ∷ []) zeros)) count
    ∙ rest_of_row n k (j + 1) unread done (front ++ c ∷ []) cells after h.1 e
        (omega (arith, length-append front (c ∷ []))) (omega arith) (omega arith)
    ∙ ap (λ row. fill_board n unread (suc k) n (suc k * n) (done ++ row ∷ after))
        (append_assoc front (c ∷ []) cells)

-- From the beginning of row k on, the rest of the rows.
rest_of_rows :
    (n k j : ℕ) (stale : Bytes) (done rows : List Bytes)
    → 1 ≤ n
    → All (IsRow n) rows
    → k ≡ length done
    → fill_board n
        (cell_text rows ++ 0 ∷ stale)
        k
        j
        (k * n)
        (done ++ replicate (length rows) (replicate n 0))
      ≡ some (done ++ rows)
unfolding fill_board
rest_of_rows n k j stale done [] some_column h e = refl
rest_of_rows n k j stale done ([] ∷ rows) some_column h e = absurd (omega (arith, h.0.0))
rest_of_rows n k j stale done ((c ∷ cells) ∷ rows) some_column h e =
    let after : List Bytes = replicate (length rows) (replicate n 0) in
    let zeros : Bytes = replicate (length cells) 0 in
    let unread : Bytes = cell_text rows ++ 0 ∷ stale in
    let row : Bytes = c ∷ cells in
    let blank : replicate n 0 ≡ 0 ∷ zeros = ap (λ m. replicate m 0) (sym h.0.0) in
    let text : (map cell_code cells ++ cell_text rows) ++ 0 ∷ stale
        ≡ map cell_code cells ++ unread =
      append_assoc (map cell_code cells) (cell_text rows) (0 ∷ stale) in
    let written : set_cell (done ++ (0 ∷ zeros) ∷ after) k 0 c
        ≡ some (done ++ (c ∷ zeros) ∷ after) =
      rw e (set_cell_lem done [] 0 c zeros after) in
    ap₂ (λ t z. fill_board n (cell_code c ∷ t) k j (k * n) (done ++ z ∷ after)) text blank
    ∙ next_row n (map cell_code cells ++ unread) k j (k * n) c (done ++ (0 ∷ zeros) ∷ after) h.0.1.0
        some_column (mod_mul k n some_column) written
    ∙ rest_of_row n k 1 unread done (c ∷ []) cells after h.0.1.1 e refl (omega arith)
        (omega (arith, h.0.0))
    ∙ ap (fill_board n unread (suc k) n (suc k * n)) (sym (append_assoc done (row ∷ []) after))
    ∙ rest_of_rows n (suc k) n stale (done ++ row ∷ []) rows some_column h.1
        (omega (arith, length-append done (row ∷ [])))
    ∙ ap some (append_assoc done (row ∷ []) rows)

no_rows : (n : ℕ) (rows : List Bytes) → length rows ≡ n → n ≡ 0 → rows ≡ []
no_rows n [] e z = refl
no_rows n (row ∷ rows) e z = absurd (omega arith)

-- The cells of a square board are read back row by row.
pub fill_board_lem :
    (n : ℕ) (rows : List Bytes) (stale : Bytes)
    → IsSquare n rows
    → fill_board n (cell_text rows ++ 0 ∷ stale) 0 0 0 (calloc_board (pos n) (pos n)) ≡ some rows
unfolding calloc_board fill_board
fill_board_lem n rows stale h = elim (Bool-cases (n == 0)) [
  | inl empty ↦
      let nothing : rows ≡ [] = no_rows n rows h.0 (ground arith) in
      let zero_rows : n ≡ 0 = ground arith in rw (nothing, zero_rows)
  | inr some_left ↦
      let filled = rest_of_rows n 0 0 stale [] rows (ground arith) h.1 refl in
      let start : 0 ≡ 0 * n = omega arith in
      ap (λ m. fill_board n (cell_text rows ++ 0 ∷ stale) 0 0 m (calloc_board (pos n) (pos n)))
        start
      ∙ (rw h.0 at filled)
]

size_lem : (n : ℕ) → n + 0 ≡ n
size_lem n = omega arith

-- A square board with at most 9999 rows, whose cells are below 208, is read back, whatever the
-- receiver's buffer holds behind the message, if the sender's heap holds a 0 behind the cells, and the
-- receiver's arrays `num` and `num2` hold no digit behind the number of rows.
pub unmarsh-marsh_board :
    (n : ℕ) (rows : List Bytes) (behind stale : Bytes) (frame : Frame) (b : Board)
    → IsSquare n rows
    → n < 10000
    → c_string behind ≡ some []
    → Fits (pos n) frame.num
    → Fits (pos n) frame.num2
    → (marsh_board behind (square n rows) >>= λ (d, _). unmarsh_board frame (d ++ stale) b)
      ≡ some (1, square n rows)
unfolding unmarsh_board
unmarsh-marsh_board n rows behind stale frame b h small heap f1 f2 = rw (
  marsh_board_lem n rows behind h (grind arith) (omega arith) heap,
  append_assoc,
  append_assoc,
  append_assoc,
  append_assoc,
  sep_field (pos n) _ frame.num f1,
  sep_field (pos n) _ frame.num2 f2,
  read_field (pos n) frame.num (omega arith) f1,
  read_field (pos n) frame.num2 (omega arith) f2,
  size_lem n,
  fill_board_lem n rows stale h,
)
