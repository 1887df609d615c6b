-- ===== src/Database/Digits.antt =====
-- `loadInt` of db.c writes the decimal digits of a positive number.
use snuffin.Libc.Buffer.{store_middle, store}
use snuffin.Common.Int.{pos}
use snuffin.Libc.Print.{
  digits_large, length-digits_large, digits_small, length-digits_pos, digits, Bytes,
}
use snuffin.Common.{
  sym, ap₂, inr, append_assoc, ◌-◌, false, ◌==◌, ◌∙◌, ◌/◌, inl, ◌+◌, drop, ltb, ◌%◌, Bool-cases, ap,
  ◌^◌, refl, ◌∷◌, zero, ◌++◌, ◌<◌, arith, [], some, ◌≡◌, length, suc, ◌≤◌, ℕ,
}
use snuffin.Database.Queries.{count_digits, load_int, write_digits}
use native.Mathlib.Nat.{pow-suc}

count_zero : (fuel : ℕ) → count_digits fuel 0 ≡ 0
unfolding count_digits
count_zero zero = refl
count_zero (suc fuel) = refl

count_digits_lem : (fuel n : ℕ) → 1 ≤ n → n < 10 ^ fuel → count_digits fuel n ≡ length (digits n)
unfolding count_digits
count_digits_lem zero n h k = absurd (omega (arith, h, k))
count_digits_lem (suc fuel) n h k = elim (Bool-cases (ltb n 10)) [
  | inl small ↦
      let none_left : n / 10 ≡ 0 = ground arith in
      let some_now : (n == 0) ≡ false = ground arith in
      rw (some_now, none_left, count_zero fuel, digits_small n (ground arith)) refl
  | inr large ↦
      let some_now : (n == 0) ≡ false = ground arith in
      let at_least : 10 ≤ n = ground arith in
      let less : n / 10 < 10 ^ fuel = omega (arith, pow-suc 10 fuel, k) in
      rw (some_now, length-digits_large n at_least)
        (ap suc (count_digits_lem fuel (n / 10) (omega (arith, at_least)) less))
]

split_length : (xs : Bytes) → 1 ≤ length xs → (m : ℕ) × (length xs ≡ suc m)
split_length [] h = absurd (omega (arith, h))
split_length (x ∷ xs) h = (length xs, refl)

no_bytes : (xs : Bytes) → length xs ≡ 0 → xs ≡ []
no_bytes [] e = refl
no_bytes (x ∷ xs) e = absurd (omega (arith, e))

split_last :
    (m : ℕ) (xs : Bytes)
    → length xs ≡ suc m
    → (ys : Bytes) × (o : ℕ) × (xs ≡ ys ++ o ∷ []) × (length ys ≡ m)
split_last m [] e = absurd (omega (arith, e))
split_last zero (x ∷ []) e = ([], x, refl, refl)
split_last zero (x ∷ y ∷ xs) e = absurd (omega (arith, e))
split_last (suc m) (x ∷ xs) e =
    let (ys, o, f, g) = split_last m xs (omega (arith, e)) in
    (x ∷ ys, o, ap (λ l. x ∷ l) f, omega (arith, g))

write_done : (k n : ℕ) (buf : Bytes) → write_digits (suc k) 0 n buf ≡ some buf
unfolding write_digits
write_done k n buf = refl

write_digits_lem :
    (k n : ℕ) (pre post : Bytes)
    → 1 ≤ n
    → n < 10 ^ k
    → length pre ≡ length (digits n)
    → write_digits (suc k) n (length pre) (pre ++ post) ≡ some (digits n ++ post)
unfolding write_digits
write_digits_lem zero n pre post h k e = absurd (omega (arith, h, k))
write_digits_lem (suc k) n pre post h l e =
    let c : ℕ = n % 10 + b'0' in
    let (m, size) = split_length (digits n) (length-digits_pos n) in
    let (pre', o, f, g) = split_last m pre (e ∙ size) in
    let some_now : (n == 0) ≡ false = ground arith in
    let last : length pre - 1 ≡ length pre' = omega (arith, e, size, g) in
    let buf : pre ++ post ≡ pre' ++ o ∷ post =
      ap (λ l. l ++ post) f ∙ append_assoc pre' (o ∷ []) post in
    let stored : store (pre ++ post) (length pre - 1) c ≡ some (pre' ++ c ∷ post) =
      ap₂ (λ b i. store b i c) buf last ∙ store_middle pre' o c post in
    elim (Bool-cases (ltb n 10)) [
      | inl small ↦
          let none_left : n / 10 ≡ 0 = ground arith in
          let whole : digits n ≡ (b'0' + n) ∷ [] = digits_small n (ground arith) in
          let empty : pre' ≡ [] = no_bytes pre' (omega (arith, g, size, ap length whole)) in
          let digit : c ≡ b'0' + n = ground arith in
          rw (some_now, stored, none_left)
            (ap some (
              ap (λ l. l ++ c ∷ post) empty
              ∙ ap (λ d. d ∷ post) digit
              ∙ sym (ap (λ l. l ++ post) whole)))
      | inr large ↦
          let at_least : 10 ≤ n = ground arith in
          let less : n / 10 < 10 ^ k = omega (arith, pow-suc 10 k, l) in
          let shorter : length pre' ≡ length (digits (n / 10)) =
            omega (arith, g, size, length-digits_large n at_least) in
          let ih =
            write_digits_lem k (n / 10) pre' (c ∷ post) (omega (arith, at_least)) less shorter in
          let digit : c ≡ b'0' + n % 10 = omega arith in
          rw (some_now, stored, last)
            (ih
              ∙ ap some (
                  ap (λ d. digits (n / 10) ++ d ∷ post) digit
                  ∙ sym (append_assoc (digits (n / 10)) ((b'0' + n % 10) ∷ []) post)
                  ∙ sym (ap (λ l. l ++ post) (digits_large n at_least))))
    ]

cut_at :
    (n : ℕ) (buf : Bytes)
    → n < length buf
    → (pre : Bytes) × (o : ℕ) × (buf ≡ pre ++ o ∷ drop (suc n) buf) × (length pre ≡ n)
cut_at n [] h = absurd (omega (arith, h))
cut_at zero (x ∷ buf) h = ([], x, refl, refl)
cut_at (suc n) (x ∷ buf) h =
    let (pre, o, e, size) = cut_at n buf (omega (arith, h)) in
    (x ∷ pre, o, ap (λ l. x ∷ l) e, ap suc size)

-- A positive `int` is written with its decimal digits and a 0 behind them, if the array has room.
pub load_int_lem :
    (n : ℕ) (buf : Bytes)
    → 1 ≤ n
    → n < 2 ^ 31
    → length (digits n) < length buf
    → load_int buf (pos n) ≡ some (digits n ++ 0 ∷ drop (suc (length (digits n))) buf)
unfolding load_int
load_int_lem n buf h small room =
    let digits_n : count_digits 11 n ≡ length (digits n) =
      count_digits_lem 11 n h (omega (arith, small)) in
    let (pre, o, e, size) = cut_at (length (digits n)) buf room in
    let rest : Bytes = drop (suc (length (digits n))) buf in
    let ended : store buf (length (digits n)) 0 ≡ some (pre ++ 0 ∷ rest) =
      ap₂ (λ b i. store b i 0) e (sym size) ∙ store_middle pre o 0 rest in
    let written : write_digits 11 n (length (digits n)) (pre ++ 0 ∷ rest)
        ≡ some (digits n ++ 0 ∷ rest) =
      ap (λ i. write_digits 11 n i (pre ++ 0 ∷ rest)) (sym size)
      ∙ write_digits_lem 10 n pre (0 ∷ rest) h (omega (arith, small)) size in
    rw (digits_n, ended) written
