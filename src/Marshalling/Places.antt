-- ===== src/Marshalling/Places.antt =====
-- `numPlaces` of marshalling.c: the number of characters that `%d` prints.
use snuffin.Common.{
  ℕ, zero, suc, ◌+◌, ◌-◌, ◌/◌, ◌^◌, ◌≤◌, ◌<◌, ◌≡◌, arith, ltb, ◌==◌, if◌then◌else◌, length,
  Bool-cases, inl, inr,
}
use native.Mathlib.Nat.{pow-suc}
use snuffin.Common.Int.{ℤ, pos, negsuc, IsInt}
use snuffin.Libc.Print.{
  length-digits_le, length-digits_ge, digits, digits_small, length-digits_large, show_int,
}

-- `negsuc m` is -(m + 1), so `negsuc (2 ^ 31 - 1)` is INT_MIN.
num_places_fuel : ℕ → ℤ → ℕ
num_places_fuel zero n = 0
num_places_fuel (suc fuel) (negsuc m) =
    num_places_fuel fuel (if m == 2 ^ 31 - 1 then pos (2 ^ 31 - 1) else pos (suc m)) + 1
num_places_fuel (suc fuel) (pos m) =
    let rest = 1 + num_places_fuel fuel (pos (m / 10)) in if ltb m 10 then 1 else rest

-- Twelve calls: one for the sign, one for each of at most ten digits, and one to spare.
unfoldable pub num_places : ℤ → ℕ
unfolding num_places_fuel
num_places = num_places_fuel 12

places_pos :
    (fuel m : ℕ) → m < 10 ^ fuel → 1 ≤ fuel → num_places_fuel fuel (pos m) ≡ length (digits m)
unfolding num_places_fuel
places_pos zero m h k = absurd (omega arith)
places_pos (suc fuel) m h k = elim (Bool-cases (ltb m 10)) [
  | inl small ↦ rw (small, digits_small m (ground arith))
  | inr large ↦
      rw
        (
          large,
          length-digits_large m (ground arith),
          places_pos fuel (m / 10) (tenth fuel m h) (fuel_left fuel m h (ground arith)),
        )
        (omega arith)
]
  where
    tenth : (k n : ℕ) → n < 10 ^ suc k → n / 10 < 10 ^ k
    tenth k n below = omega (arith, pow-suc 10 k)

    fuel_left : (k n : ℕ) → n < 10 ^ suc k → 10 ≤ n → 1 ≤ k
    fuel_left zero n below ten = absurd (omega arith)
    fuel_left (suc k) n below ten = omega arith

-- Both INT_MAX and the magnitude of INT_MIN have ten digits.
length-digits_ten : (n : ℕ) → 10 ^ 9 ≤ n → n < 10 ^ 10 → length (digits n) ≡ 10
length-digits_ten n lo hi = omega (arith, length-digits_ge 9 n lo, length-digits_le 9 n hi)

-- For every `int`, INT_MIN included, the length of what `%d` prints.
places_neg :
    (fuel m : ℕ)
    → suc m ≤ 2 ^ 31
    → num_places_fuel (suc fuel) (negsuc m)
      ≡ num_places_fuel fuel (pos (if m == 2 ^ 31 - 1 then m else suc m)) + 1
unfolding num_places_fuel
places_neg fuel m h = ground arith

pub num_places-eq : (n : ℤ) → IsInt n → num_places n ≡ length (show_int n)
unfolding num_places show_int
num_places-eq (pos m) h = places_pos 12 m (omega arith) (omega arith)
num_places-eq (negsuc m) h =
    let magnitude : ℕ = if m == 2 ^ 31 - 1 then m else suc m in
    let same : length (digits magnitude) ≡ length (digits (suc m)) =
      ground (arith, length-digits_ten m, length-digits_ten (suc m)) in
    rw (places_neg 11 m h.1, places_pos 11 magnitude (ground arith) (omega arith)) (omega arith)
