-- ===== src/Marshalling/Grid/Shape.antt =====
-- Square boards, and the text of their cells.
use snuffin.Common.Int.{pos}
use snuffin.Libc.Buffer.{Lacks}
use snuffin.Structs.{Board}
use snuffin.Libc.Print.{Bytes}
use snuffin.Common.{
  refl, [], suc, length-append, All-append, arith, ◌++◌, ◌*◌, ap, map, ◌%◌, ◌≡◌, All, length, ◌∷◌,
  ◌+◌, ◌<◌, List, ℕ,
}

-- A cell is written as the character that many places behind '0'.
abbrev pub cell_code : ℕ → ℕ
cell_code c = (c + b'0') % 256

abbrev pub cell_text : List Bytes → Bytes
cell_text [] = []
cell_text (row ∷ rows) = map cell_code row ++ cell_text rows

-- A cell's character is neither 0 nor behind the end of `char`.
abbrev pub IsCell : ℕ → Type 0
IsCell c = c < 208

abbrev pub IsRow : ℕ → Bytes → Type 0
IsRow n row = (length row ≡ n) × All IsCell row

-- A board of n rows with n cells each.
abbrev pub IsSquare : ℕ → List Bytes → Type 0
IsSquare n rows = (length rows ≡ n) × All (IsRow n) rows

abbrev pub square : ℕ → List Bytes → Board
square n rows = record { board = rows; rows = pos n; columns = pos n }

pub length-map {ℓ κ} :
    {A : Type ℓ} {B : Type κ} (f : A → B) (xs : List A) → length (map f xs) ≡ length xs
length-map f [] = refl
length-map f (x ∷ xs) = ap suc (length-map f xs)

pub length-cell_text :
    (n : ℕ) (rows : List Bytes) → All (IsRow n) rows → length (cell_text rows) ≡ length rows * n
length-cell_text n [] h = omega arith
length-cell_text n (row ∷ rows) h = omega (
  arith,
  length-append (map cell_code row) (cell_text rows),
  length-map cell_code row,
  length-cell_text n rows h.1,
)

row-Lacks : (row : Bytes) → All IsCell row → Lacks 0 (map cell_code row)
row-Lacks [] h = tt
row-Lacks (c ∷ row) h = (omega arith, row-Lacks row h.1)

pub cell_text-Lacks : (n : ℕ) (rows : List Bytes) → All (IsRow n) rows → Lacks 0 (cell_text rows)
cell_text-Lacks n [] h = tt
cell_text-Lacks n (row ∷ rows) h =
    All-append _ (map cell_code row) (cell_text rows) (row-Lacks row h.0.1)
      (cell_text-Lacks n rows h.1)
