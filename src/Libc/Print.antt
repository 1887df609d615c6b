-- ===== src/Libc/Print.antt =====
-- The output of `printf` and `sprintf` for `%d`.
use snuffin.Common.{
  ◌*◌, ℕ, zero, suc, ◌+◌, ◌/◌, ◌%◌, ◌^◌, ◌≤◌, ◌<◌, ◌≡◌, List, [], ◌∷◌, ◌++◌, arith, ltb, Bool-cases,
  inl, inr, if◌then◌else◌, All, All-append, length, length-append,
}
use native.Mathlib.Nat.{pow-suc}
use snuffin.Common.Int.{ℤ, pos, negsuc}

abbrev pub Bytes : Type 0
Bytes = List ℕ

-- The fuel is the number itself: each round divides it by ten.
digits_fuel : ℕ → ℕ → Bytes
digits_fuel zero n = []
digits_fuel (suc f) n =
    let rest = digits_fuel f (n / 10) ++ (b'0' + n % 10) ∷ [] in
    if ltb n 10 then (b'0' + n) ∷ [] else rest

unfoldable pub digits : ℕ → Bytes
unfolding digits_fuel
digits n = digits_fuel (suc n) n

-- Fuel above the number is enough.
digits_fuel_enough : (f g n : ℕ) → n < f → n < g → digits_fuel f n ≡ digits_fuel g n
unfolding digits_fuel
digits_fuel_enough zero g n hf hg = absurd (omega arith)
digits_fuel_enough (suc f) zero n hf hg = absurd (omega arith)
digits_fuel_enough (suc f) (suc g) n hf hg = ground (arith, digits_fuel_enough f g (n / 10))

pub digits_small : (n : ℕ) → n < 10 → digits n ≡ (b'0' + n) ∷ []
unfolding digits
digits_small n h = ground arith

pub digits_large : (n : ℕ) → 10 ≤ n → digits n ≡ digits (n / 10) ++ (b'0' + n % 10) ∷ []
unfolding digits
digits_large n h = ground (arith, digits_fuel_enough n (suc (n / 10)) (n / 10))

-- Induction along the digits.
digits_induction_fuel {ℓ} :
    (P : ℕ → Type ℓ)
    → ((n : ℕ) → n < 10 → P n)
    → ((n : ℕ) → 10 ≤ n → P (n / 10) → P n)
    → (f n : ℕ) → n < f
    → P n
digits_induction_fuel P small large zero n h = absurd (omega arith)
digits_induction_fuel P small large (suc f) n h = elim (Bool-cases (ltb n 10)) [
  | inl e ↦ small n (ground arith)
  | inr e ↦ large n (ground arith) (digits_induction_fuel P small large f (n / 10) (ground arith))
]

pub digits_induction {ℓ} :
    (P : ℕ → Type ℓ)
    → ((n : ℕ) → n < 10 → P n)
    → ((n : ℕ) → 10 ≤ n → P (n / 10) → P n)
    → (n : ℕ) → P n
digits_induction P small large n = digits_induction_fuel P small large (suc n) n (omega arith)

abbrev pub IsDigit : ℕ → Type 0
IsDigit c = (b'0' ≤ c) × (c ≤ b'9')

pub digits-IsDigit : (n : ℕ) → All IsDigit (digits n)
digits-IsDigit =
    digits_induction (λ n. All IsDigit (digits n)) (λ n h. rw (digits_small n h) (omega arith))
      (λ n h ih. rw (digits_large n h) (All-append IsDigit _ _ ih (omega arith)))

pub length-digits_large : (n : ℕ) → 10 ≤ n → length (digits n) ≡ suc (length (digits (n / 10)))
length-digits_large n h =
    rw (digits_large n h) (omega (arith, length-append (digits (n / 10)) ((b'0' + n % 10) ∷ [])))

pub length-digits_pos : (n : ℕ) → 1 ≤ length (digits n)
length-digits_pos =
    digits_induction (λ n. 1 ≤ length (digits n)) (λ n h. rw (digits_small n h) (omega arith))
      (λ n h ih. omega (arith, length-digits_large n h))

-- `%d`
unfoldable pub show_int : ℤ → Bytes
unfolding digits
show_int (pos n) = digits n
show_int (negsuc n) = b'-' ∷ digits (suc n)

-- What `%d` prints: digits and a minus sign.
abbrev pub IsNumeral : ℕ → Type 0
IsNumeral c = (b'-' ≤ c) × (c ≤ b'9')

digits-IsNumeral : (s : Bytes) → All IsDigit s → All IsNumeral s
digits-IsNumeral [] h = tt
digits-IsNumeral (c ∷ s) h = (omega arith, digits-IsNumeral s h.1)

pub show_int-IsNumeral : (n : ℤ) → All IsNumeral (show_int n)
unfolding show_int
show_int-IsNumeral (pos n) = digits-IsNumeral (digits n) (digits-IsDigit n)
show_int-IsNumeral (negsuc n) =
    (omega arith, digits-IsNumeral (digits (suc n)) (digits-IsDigit (suc n)))

-- A number below a power of ten has no more digits than the exponent.
pub length-digits_le : (k n : ℕ) → n < 10 ^ suc k → length (digits n) ≤ suc k
length-digits_le zero n h = rw (digits_small n (omega arith)) (omega arith)
length-digits_le (suc k) n h = elim (Bool-cases (ltb n 10)) [
  | inl small ↦ rw (digits_small n (ground arith)) (omega arith)
  | inr large ↦ omega (
    arith,
    length-digits_large n (ground arith),
    length-digits_le k (n / 10) (omega (arith, pow-suc 10 (suc k))),
  )
]

pub length-digits_ge : (k n : ℕ) → 10 ^ k ≤ n → suc k ≤ length (digits n)
length-digits_ge zero n h = length-digits_pos n
length-digits_ge (suc k) n h =
    let power : 10 ^ suc k ≡ 10 ^ k * 10 = pow-suc 10 k in
    let large : 10 ≤ n = omega (arith, one_le_pow k) in
    omega (arith, length-digits_large n large, length-digits_ge k (n / 10) (omega arith))
  where
    one_le_pow : (j : ℕ) → 1 ≤ 10 ^ j
    one_le_pow zero = omega arith
    one_le_pow (suc j) = omega (arith, pow-suc 10 j, one_le_pow j)
