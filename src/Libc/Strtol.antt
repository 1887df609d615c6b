-- ===== src/Libc/Strtol.antt =====
-- `strtol(s, &endptr, 10)` and `atoi`, on the array that the text starts in. A text that does not
-- end inside its array makes them read on behind it: `none`.
use snuffin.Common.{
  ℕ, zero, suc, ◌+◌, ◌-◌, ◌*◌, ◌/◌, ◌%◌, ◌^◌, ◌≤◌, ◌<◌, ◌≡◌, refl, codes, ap, ◌∙◌, length, All,
  Bool, true, false, Option, none, some, ◌>>=◌, [], ◌∷◌, ◌++◌, append_assoc, arith, leb, ◌==◌, ◌&&◌,
  ◌||◌, if◌then◌else◌, min,
}
use snuffin.Common.Int.{ℤ, pos, negsuc, to_int, IsInt, to_int-eq}
use snuffin.Libc.Print.{
  Bytes, digits, digits_small, digits_large, digits_induction, show_int, IsDigit, digits-IsDigit,
  length-digits_pos,
}

abbrev pub is_digit : ℕ → Bool
is_digit c = leb b'0' c && leb c b'9'

-- `isspace`: blank, and \t \n \v \f \r
abbrev is_space : ℕ → Bool
is_space c = c == 32 || (leb 9 c && leb c 13)

pub scan_digits : ℕ → Bytes → Option ℕ
scan_digits n [] = none
scan_digits n (c ∷ s) =
    let rest = scan_digits (n * 10 + (c - b'0')) s in if is_digit c then rest else some n

-- A result out of range is the nearest `long`.
abbrev clamp_pos : ℕ → ℤ
clamp_pos n = pos (min n (2 ^ 63 - 1))

abbrev clamp_neg : ℕ → ℤ
clamp_neg zero = pos 0
clamp_neg (suc n) = negsuc (min n (2 ^ 63 - 1))

signed : Bytes → Option ℤ
unfolding scan_digits
signed [] = none
signed (c ∷ s) =
    if c == b'-'
    then (scan_digits 0 s >>= λ n. some (clamp_neg n))
    else if c == b'+'
    then (scan_digits 0 s >>= λ n. some (clamp_pos n))
    else (scan_digits 0 (c ∷ s) >>= λ n. some (clamp_pos n))

unfoldable pub strtol : Bytes → Option ℤ
unfolding signed
strtol [] = none
strtol (c ∷ s) = let rest = strtol s in if is_space c then rest else signed (c ∷ s)

-- `(int) strtol(s, &endptr, 10)`, which is `atoi` too.
unfoldable pub read_int : Bytes → Option ℤ
unfolding strtol to_int
read_int s = strtol s >>= λ m. some (to_int m)

abbrev starts_with_digit : Bytes → Bool
starts_with_digit [] = false
starts_with_digit (c ∷ s) = is_digit c

-- The first byte after the digits is the one at which the scan ends.
abbrev pub Stops : Bytes → Type 0
Stops [] = ⊥
Stops (c ∷ s) = is_digit c ≡ false

scan_digits-stop : (n : ℕ) (s : Bytes) → Stops s → scan_digits n s ≡ some n
unfolding scan_digits
scan_digits-stop n [] h = absurd h
scan_digits-stop n (c ∷ s) h = ground arith

scan_digits-step :
    (n d : ℕ) (s : Bytes) → d < 10 → scan_digits n ((b'0' + d) ∷ s) ≡ scan_digits (n * 10 + d) s
unfolding scan_digits
scan_digits-step n d s h = ground arith

-- Reading the digits of a number leaves that number and the rest of the text.
scan_digits-digits : (n : ℕ) (s : Bytes) → scan_digits 0 (digits n ++ s) ≡ scan_digits n s
scan_digits-digits =
    digits_induction (λ n. (s : Bytes) → scan_digits 0 (digits n ++ s) ≡ scan_digits n s)
      (λ n h s.
        rw (digits_small n h) (scan_digits-step 0 n s h ∙ ap (λ m. scan_digits m s) (omega arith)))
      large
  where
    large :
        (n : ℕ)
        → 10 ≤ n
        → ((s : Bytes) → scan_digits 0 (digits (n / 10) ++ s) ≡ scan_digits (n / 10) s)
        → (s : Bytes) → scan_digits 0 (digits n ++ s) ≡ scan_digits n s
    large n h ih s =
        rw (digits_large n h, append_assoc, ih, scan_digits-step (n / 10) (n % 10) s (omega arith))
          (ap (λ m. scan_digits m s) (omega arith))

scan_digits_numeral : (n : ℕ) (s : Bytes) → Stops s → scan_digits 0 (digits n ++ s) ≡ some n
scan_digits_numeral n s h = rw scan_digits-digits (scan_digits-stop n s h)

-- A text that begins with a digit has neither blanks nor a sign.
strtol_plain :
    (s : Bytes) (n : ℕ)
    → starts_with_digit s ≡ true
    → scan_digits 0 s ≡ some n
    → strtol s ≡ some (clamp_pos n)
unfolding strtol signed
strtol_plain [] n h e = cc
strtol_plain (c ∷ s) n h e = ground arith

strtol_minus :
    (s : Bytes) (n : ℕ) → scan_digits 0 s ≡ some n → strtol (b'-' ∷ s) ≡ some (clamp_neg n)
unfolding strtol signed
strtol_minus s n e = ground arith

digit_first : (t s : Bytes) → All IsDigit t → 1 ≤ length t → starts_with_digit (t ++ s) ≡ true
digit_first [] s h k = absurd (omega arith)
digit_first (c ∷ t) s h k = ground arith

-- What `%d` prints is read back, if a byte that is no digit follows it.
pub read_int-show_int :
    (n : ℤ) (s : Bytes) → IsInt n → Stops s → read_int (show_int n ++ s) ≡ some n
unfolding read_int show_int
read_int-show_int (pos n) s h stop =
    rw
      (strtol_plain (digits n ++ s) n
        (digit_first (digits n) s (digits-IsDigit n) (length-digits_pos n))
        (scan_digits_numeral n s stop))
      (ap some (ap to_int (ap pos (omega arith)) ∙ to_int-eq (pos n) h))
read_int-show_int (negsuc n) s h stop =
    rw (strtol_minus (digits (suc n) ++ s) (suc n) (scan_digits_numeral (suc n) s stop))
      (ap some (ap to_int (ap negsuc (omega arith)) ∙ to_int-eq (negsuc n) h))

-- Digits that follow the numeral are read as a part of it.
pub read_int_stale :
    (n d : ℕ) (s : Bytes)
    → n * 10 + d < 2 ^ 31
    → d < 10
    → Stops s
    → read_int (digits n ++ (b'0' + d) ∷ s) ≡ some (pos (n * 10 + d))
unfolding read_int
read_int_stale n d s h k stop =
    rw
      (strtol_plain (digits n ++ (b'0' + d) ∷ s) (n * 10 + d)
        (digit_first (digits n) _ (digits-IsDigit n) (length-digits_pos n))
        (scan_digits-digits n ((b'0' + d) ∷ s)
          ∙ scan_digits-step n d s k
          ∙ scan_digits-stop (n * 10 + d) s stop))
      (ap some (ap to_int (ap pos (omega arith)) ∙ to_int-eq (pos (n * 10 + d)) (omega arith)))

read_int_tests :
    (read_int (codes " -12#") ≡ some (negsuc 11))
    × (read_int (codes "12") ≡ none)
    × (read_int (codes "x") ≡ some (pos 0))
unfolding read_int
read_int_tests = (refl, refl, refl)

pub strtol-show_int :
    (n : ℕ) (s : Bytes) → n < 2 ^ 63 → Stops s → strtol (show_int (pos n) ++ s) ≡ some (pos n)
unfolding show_int
strtol-show_int n s h stop =
    rw
      (strtol_plain (digits n ++ s) n
        (digit_first (digits n) s (digits-IsDigit n) (length-digits_pos n))
        (scan_digits_numeral n s stop))
      (ap some (ap pos (omega arith)))

pub show_int_pos : (n : ℕ) → show_int (pos n) ≡ digits n
unfolding show_int
show_int_pos n = refl

-- A text of digits alone has no end in its array.
scan_digits_open : (n : ℕ) (s : Bytes) → All IsDigit s → scan_digits n s ≡ none
unfolding scan_digits
scan_digits_open n [] h = refl
scan_digits_open n (c ∷ s) h = ground (arith, scan_digits_open (n * 10 + (c - b'0')) s h.1)

read_digits_open : (s : Bytes) → All IsDigit s → read_int s ≡ none
unfolding read_int strtol signed
read_digits_open [] h = refl
read_digits_open (c ∷ s) h = ground (arith, scan_digits_open 0 (c ∷ s) h)

pub read_int_open : (n : ℕ) → read_int (show_int (pos n)) ≡ none
unfolding show_int
read_int_open n = read_digits_open (digits n) (digits-IsDigit n)
