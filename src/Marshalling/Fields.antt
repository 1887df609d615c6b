-- ===== src/Marshalling/Fields.antt =====
-- A number in a message: what `%d` prints holds no separator and no 0, and is read back from a local
-- array that it fits in.
use snuffin.Libc.Strtol.{read_int-show_int, Stops, read_int}
use snuffin.Marshalling.Tags.{sep}
use snuffin.Libc.Buffer.{copy_until_lem, copy_until, Lacks}
use snuffin.Common.{[], some, arith, drop, ◌≡◌, ◌≤◌, ◌++◌, ◌∷◌, All, length}
use snuffin.Libc.Print.{show_int-IsNumeral, show_int, IsNumeral, Bytes}
use snuffin.Common.Int.{IsInt, ℤ}

numeral-Lacks-sep : (s : Bytes) → All IsNumeral s → Lacks sep s
numeral-Lacks-sep [] h = tt
numeral-Lacks-sep (c ∷ s) h = (omega arith, numeral-Lacks-sep s h.1)

numeral-Lacks_zero : (s : Bytes) → All IsNumeral s → Lacks 0 s
numeral-Lacks_zero [] h = tt
numeral-Lacks_zero (c ∷ s) h = (omega arith, numeral-Lacks_zero s h.1)

pub show_int-Lacks-sep : (n : ℤ) → Lacks sep (show_int n)
show_int-Lacks-sep n = numeral-Lacks-sep (show_int n) (show_int-IsNumeral n)

pub show_int-Lacks_zero : (n : ℤ) → Lacks 0 (show_int n)
show_int-Lacks_zero n = numeral-Lacks_zero (show_int n) (show_int-IsNumeral n)

-- The number fits into the array, and the byte behind it there is no digit.
abbrev pub Fits : ℤ → Bytes → Type 0
Fits n buf = (length (show_int n) ≤ length buf) × Stops (drop (length (show_int n)) buf)

pub sep_field :
    (n : ℤ) (rest buf : Bytes)
    → Fits n buf
    → copy_until sep (show_int n ++ sep ∷ rest) 0 buf
      ≡ some (show_int n ++ drop (length (show_int n)) buf, rest)
sep_field n rest buf h = copy_until_lem sep (show_int n) rest buf (show_int-Lacks-sep n) h.0

pub last_field :
    (n : ℤ) (rest buf : Bytes)
    → Fits n buf
    → copy_until 0 (show_int n ++ 0 ∷ rest) 0 buf
      ≡ some (show_int n ++ drop (length (show_int n)) buf, rest)
last_field n rest buf h = copy_until_lem 0 (show_int n) rest buf (show_int-Lacks_zero n) h.0

pub read_field :
    (n : ℤ) (buf : Bytes)
    → IsInt n
    → Fits n buf
    → read_int (show_int n ++ drop (length (show_int n)) buf) ≡ some n
read_field n buf i h = read_int-show_int n (drop (length (show_int n)) buf) i h.1
