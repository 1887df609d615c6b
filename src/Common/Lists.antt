-- ===== src/Common/Lists.antt =====
-- Lists measured and indexed by native numbers; an array is a list of its elements.
use Prim.Native.Nat.{ℕ, zero, suc, ◌+◌, ◌-◌, ◌≤◌, ◌<◌}
use mathlib.Core.Path.{◌≡◌, refl, ap, ap₂, ◌∙◌}
use mathlib.Core.Logic.{◌≢◌}
use mathlib.Core.List.{List, [], ◌∷◌, ◌++◌}
use mathlib.Core.Option.{Option, none, some}
use native.Mathlib.Omega.{arith}

module _ {ℓ} {A : Type ℓ} where
  abbrev pub length : List A → ℕ
  length [] = 0
  length (x ∷ xs) = suc (length xs)

  abbrev pub get_elem? : List A → ℕ → Option A
  get_elem? [] i = none
  get_elem? (x ∷ xs) zero = some x
  get_elem? (x ∷ xs) (suc i) = get_elem? xs i

  -- A write out of bounds changes nothing.
  abbrev pub set : List A → ℕ → A → List A
  set [] i v = []
  set (x ∷ xs) zero v = v ∷ xs
  set (x ∷ xs) (suc i) v = x ∷ set xs i v

  abbrev pub take : ℕ → List A → List A
  take zero xs = []
  take (suc n) [] = []
  take (suc n) (x ∷ xs) = x ∷ take n xs

  abbrev pub drop : ℕ → List A → List A
  drop zero xs = xs
  drop (suc n) [] = []
  drop (suc n) (x ∷ xs) = drop n xs

  abbrev pub replicate : ℕ → A → List A
  replicate zero a = []
  replicate (suc n) a = a ∷ replicate n a

  abbrev pub All {κ} : (A → Type κ) → List A → Type κ
  All P [] = Unit
  All P (x ∷ xs) = P x × All P xs

module _ {ℓ} {A : Type ℓ} where
  pub length-append : (xs ys : List A) → length (xs ++ ys) ≡ length xs + length ys
  length-append [] ys = omega arith
  length-append (x ∷ xs) ys = omega (arith, length-append xs ys)

  pub length-set : (xs : List A) (i : ℕ) (v : A) → length (set xs i v) ≡ length xs
  length-set [] i v = refl
  length-set (x ∷ xs) zero v = refl
  length-set (x ∷ xs) (suc i) v = ap suc (length-set xs i v)

  pub length-replicate : (n : ℕ) (a : A) → length (replicate n a) ≡ n
  length-replicate zero a = refl
  length-replicate (suc n) a = ap suc (length-replicate n a)

  pub get_elem?-set_self :
      (xs : List A) (i : ℕ) (v : A) → i < length xs → get_elem? (set xs i v) i ≡ some v
  get_elem?-set_self [] i v h = elim h [ ]
  get_elem?-set_self (x ∷ xs) zero v h = refl
  get_elem?-set_self (x ∷ xs) (suc i) v h = get_elem?-set_self xs i v (omega arith)

  pub get_elem?-set_ne :
      (xs : List A) (i j : ℕ) (v : A) → i ≢ j → get_elem? (set xs i v) j ≡ get_elem? xs j
  get_elem?-set_ne [] i j v h = refl
  get_elem?-set_ne (x ∷ xs) zero zero v h = absurd (h refl)
  get_elem?-set_ne (x ∷ xs) zero (suc j) v h = refl
  get_elem?-set_ne (x ∷ xs) (suc i) zero v h = refl
  get_elem?-set_ne (x ∷ xs) (suc i) (suc j) v h = get_elem?-set_ne xs i j v (λ e. h (ap suc e))

  pub set_middle :
      (pre : List A) (o : A) (post : List A) (v : A)
      → set (pre ++ o ∷ post) (length pre) v ≡ pre ++ v ∷ post
  set_middle [] o post v = refl
  set_middle (x ∷ pre) o post v = ap (λ l. x ∷ l) (set_middle pre o post v)

  pub drop_append : (xs ys : List A) → drop (length xs) (xs ++ ys) ≡ ys
  drop_append [] ys = refl
  drop_append (x ∷ xs) ys = drop_append xs ys

  pub take_append : (xs ys : List A) → take (length xs) (xs ++ ys) ≡ xs
  take_append [] ys = refl
  take_append (x ∷ xs) ys = ap (λ l. x ∷ l) (take_append xs ys)

  pub All-append {κ} : (P : A → Type κ) (xs ys : List A) → All P xs → All P ys → All P (xs ++ ys)
  All-append P [] ys hx hy = hy
  All-append P (x ∷ xs) ys hx hy = (hx.0, All-append P xs ys hx.1 hy)

  pub drop_all : (n : ℕ) (xs : List A) → length xs ≤ n → drop n xs ≡ []
  drop_all zero [] h = refl
  drop_all zero (x ∷ xs) h = absurd (omega arith)
  drop_all (suc n) [] h = refl
  drop_all (suc n) (x ∷ xs) h = drop_all n xs (omega arith)

  pub drop-replicate : (n : ℕ) (a : A) → drop n (replicate (suc n) a) ≡ a ∷ []
  drop-replicate zero a = refl
  drop-replicate (suc n) a = drop-replicate n a

  pub length-drop : (n : ℕ) (xs : List A) → length (drop n xs) ≡ length xs - n
  length-drop zero xs = omega arith
  length-drop (suc n) [] = omega arith
  length-drop (suc n) (x ∷ xs) = omega (arith, length-drop n xs)

  pub replicate-add : (m n : ℕ) (a : A) → replicate (m + n) a ≡ replicate m a ++ replicate n a
  replicate-add zero n a = let e : zero + n ≡ n = omega arith in ap (λ k. replicate k a) e
  replicate-add (suc m) n a =
      let e : suc m + n ≡ suc (m + n) = omega arith in
      ap (λ k. replicate k a) e ∙ ap (λ l. a ∷ l) (replicate-add m n a)

  pub take_suc :
      (xs : List A) (y : A) (ys : List A) → take (length xs + 1) (xs ++ y ∷ ys) ≡ xs ++ y ∷ []
  take_suc [] y ys = refl
  take_suc (x ∷ xs) y ys =
      let e : suc (length xs) + 1 ≡ suc (length xs + 1) = omega arith in
      ap (λ k. take k ((x ∷ xs) ++ y ∷ ys)) e ∙ ap (λ l. x ∷ l) (take_suc xs y ys)

  pub drop-replicate_two : (n : ℕ) (a : A) → drop (n + 1) (replicate (n + 2) a) ≡ a ∷ []
  drop-replicate_two n a =
      let e : n + 1 ≡ suc n = omega arith in
      let f : n + 2 ≡ suc (suc n) = omega arith in
      ap₂ (λ k m. drop k (replicate m a)) e f ∙ drop-replicate n a

  pub get_middle :
      (pre : List A) (x : A) (post : List A) → get_elem? (pre ++ x ∷ post) (length pre) ≡ some x
  get_middle [] x post = refl
  get_middle (y ∷ pre) x post = get_middle pre x post

  pub get_lt : (xs : List A) (i : ℕ) {v : A} → get_elem? xs i ≡ some v → i < length xs
  get_lt [] i e = cc
  get_lt (x ∷ xs) zero e = omega arith
  get_lt (x ∷ xs) (suc i) e = omega (arith, get_lt xs i e)
