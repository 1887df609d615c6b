-- ===== src/Common/Int.antt =====
-- The C types `int` and `long` as integers over the native numbers, with the range of an `int` and
-- the conversion that keeps its low 32 bits.
use snuffin.Common.{
  inr, inl, Bool-cases, ◌⊎◌, ap, ◌∙◌, sym, subst, ℕ, suc, ◌+◌, ◌-◌, ◌*◌, Option, none, some, ◌&&◌,
  ◌>>=◌, ◌%◌, ◌^◌, ◌≤◌, ◌≡◌, ◌≢◌, refl, Bool, arith, ltb, leb, ◌==◌, if◌then◌else◌, ◌<◌,
}

-- `negsuc n` is -(n + 1).
pub data ℤ : Type 0 where
  pos : ℕ → ℤ
  negsuc : ℕ → ℤ

abbrev pub pos_part : ℤ → ℕ
pos_part (pos n) = n
pos_part (negsuc n) = 0

abbrev pub neg_part : ℤ → ℕ
neg_part (pos n) = 0
neg_part (negsuc n) = suc n

abbrev pub sub_ℕ : ℕ → ℕ → ℤ
sub_ℕ a b = if leb b a then pos (a - b) else negsuc (b - a - 1)

infixl 65 ◌+ℤ◌ ◌-ℤ◌
infixl 70 ◌*ℤ◌
infix 50 ◌≤ℤ◌
unfoldable pub ◌+ℤ◌ : ℤ → ℤ → ℤ
a +ℤ b = sub_ℕ (pos_part a + pos_part b) (neg_part a + neg_part b)

unfoldable pub ◌-ℤ◌ : ℤ → ℤ → ℤ
a -ℤ b = sub_ℕ (pos_part a + neg_part b) (neg_part a + pos_part b)

unfoldable pub ◌*ℤ◌ : ℤ → ℤ → ℤ
a *ℤ b =
    sub_ℕ (pos_part a * pos_part b + neg_part a * neg_part b)
      (pos_part a * neg_part b + neg_part a * pos_part b)

abbrev pub ◌≤ℤ◌ : ℤ → ℤ → Type 0
a ≤ℤ b = pos_part a + neg_part b ≤ pos_part b + neg_part a

abbrev pub ltb_ℤ : ℤ → ℤ → Bool
ltb_ℤ a b = ltb (pos_part a + neg_part b) (pos_part b + neg_part a)

abbrev pub eqb_ℤ : ℤ → ℤ → Bool
eqb_ℤ a b = (pos_part a + neg_part b) == (pos_part b + neg_part a)

pub +ℤ_parts :
    (a b : ℤ)
    → pos_part (a +ℤ b) + neg_part a + neg_part b ≡ neg_part (a +ℤ b) + pos_part a + pos_part b
unfolding ◌+ℤ◌
+ℤ_parts a b = ground arith

pub -ℤ_parts :
    (a b : ℤ)
    → pos_part (a -ℤ b) + neg_part a + pos_part b ≡ neg_part (a -ℤ b) + pos_part a + neg_part b
unfolding ◌-ℤ◌
-ℤ_parts a b = ground arith

pub eq_of_parts : (a b : ℤ) → pos_part a + neg_part b ≡ pos_part b + neg_part a → a ≡ b
eq_of_parts a b h = ground arith

pub ruleset int_laws = (arith, +ℤ_parts, -ℤ_parts, eq_of_parts)

-- The values of an `int`.
abbrev pub IsInt : ℤ → Type 0
IsInt n = (pos_part n < 2 ^ 31) × (neg_part n ≤ 2 ^ 31)

abbrev signed32 : ℕ → ℤ
signed32 w = if ltb w (2 ^ 31) then pos w else negsuc (2 ^ 32 - w - 1)

-- `(int) m`: the low 32 bits, read as a signed number.
unfoldable pub to_int : ℤ → ℤ
to_int (pos n) = signed32 (n % 2 ^ 32)
to_int (negsuc n) = signed32 (2 ^ 32 - 1 - n % 2 ^ 32)

pub to_int-eq : (n : ℤ) → IsInt n → to_int n ≡ n
unfolding to_int
to_int-eq (pos n) h = ground arith
to_int-eq (negsuc n) h = ground arith

abbrev is_int : ℤ → Bool
is_int n = ltb (pos_part n) (2 ^ 31) && leb (neg_part n) (2 ^ 31)

-- Arithmetic on `int`: overflow is undefined behaviour.
unfoldable pub add_int : ℤ → ℤ → Option ℤ
unfolding ◌+ℤ◌
add_int a b = if is_int (a +ℤ b) then some (a +ℤ b) else none

unfoldable pub mul_int : ℤ → ℤ → Option ℤ
unfolding ◌*ℤ◌
mul_int a b = if is_int (a *ℤ b) then some (a *ℤ b) else none

pub add_int-eq : (a b : ℤ) → IsInt (a +ℤ b) → add_int a b ≡ some (a +ℤ b)
unfolding add_int
add_int-eq a b h = ground arith

pub mul_int-pos : (a b : ℕ) → a * b < 2 ^ 31 → mul_int (pos a) (pos b) ≡ some (pos (a * b))
unfolding mul_int
mul_int-pos a b h = ground arith

pub add_int_back : (a : ℤ) (n : ℕ) → IsInt a → add_int (a +ℤ pos n) (pos 0 -ℤ pos n) ≡ some a
add_int_back a n h =
    let same : a +ℤ pos n +ℤ (pos 0 -ℤ pos n) ≡ a = omega int_laws in
    add_int-eq (a +ℤ pos n) (pos 0 -ℤ pos n) (subst IsInt (sym same) h) ∙ ap some same

pub eqb_ℤ_cases : (a b : ℤ) → (a ≡ b) ⊎ (a ≢ b)
eqb_ℤ_cases a b = elim (Bool-cases (eqb_ℤ a b)) [
  | inl same ↦ inl (eq_of_parts a b (ground arith))
  | inr other ↦ inr (λ e. ground arith)
]
