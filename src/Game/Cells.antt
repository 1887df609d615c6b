-- ===== src/Game/Cells.antt =====
-- Two-dimensional arrays of `char` with coordinates of type `int`. An access with an index out of
-- range is `none`.
use mathlib.Core.Option.{some-injective}
use snuffin.Libc.Print.{Bytes}
use snuffin.Common.Int.{negsuc, pos, pos_part, neg_part, ℤ}
use snuffin.Common.{
  ◌==◌, sym, ap, get_elem?-set_self, get_elem?-set_ne, inr, ◌∙◌, zero, inl, refl, length-set, ltb,
  [], ◌⊎◌, ◌≢◌, Bool-cases, suc, subst, arith, ◌>>=◌, some, none, ◌∷◌, Option, ◌≤◌, get_elem?, ◌≡◌,
  set, length, ◌<◌, All, List, ℕ,
}
use snuffin.Libc.Buffer.{store-set, store}

at : List Bytes → ℕ → ℕ → Option ℕ
at g y x = get_elem? g y >>= λ row. get_elem? row x

-- `g[y][x]`
unfoldable pub peek : List Bytes → ℤ → ℤ → Option ℕ
unfolding at
peek g (pos y) (pos x) = at g y x
peek g (pos y) (negsuc x) = none
peek g (negsuc y) x = none

put_at : List Bytes → ℕ → ℕ → ℕ → Option (List Bytes)
put_at g y x c = do row ← get_elem? g y; row ← store row x c; some (set g y row)

-- `g[y][x] = c`
unfoldable pub poke : List Bytes → ℤ → ℤ → ℕ → Option (List Bytes)
unfolding put_at
poke g (pos y) (pos x) c = put_at g y x c
poke g (pos y) (negsuc x) c = none
poke g (negsuc y) x c = none

-- The array has h rows of w elements.
abbrev pub HasSize : ℕ → ℕ → List Bytes → Type 0
HasSize h w g = (length g ≡ h) × All (λ row. length row ≡ w) g

-- The coordinates lie in an array of that size.
abbrev pub Inside : ℕ → ℕ → ℤ → ℤ → Type 0
Inside h w y x = (neg_part y ≡ 0) × (neg_part x ≡ 0) × (pos_part y < h) × (pos_part x < w)

store-none : (row : Bytes) (x c : ℕ) → length row ≤ x → store row x c ≡ none
unfolding store
store-none [] x c h = refl
store-none (o ∷ row) zero c h = absurd (omega arith)
store-none (o ∷ row) (suc x) c h = rw (store-none row x c (omega arith))

pub get_some {ℓ} :
    {A : Type ℓ} (xs : List A) (i : ℕ) → i < length xs → (v : A) × (get_elem? xs i ≡ some v)
get_some [] i h = absurd (omega arith)
get_some (x ∷ xs) zero h = (x, refl)
get_some (x ∷ xs) (suc i) h = get_some xs i (omega arith)

get_none {ℓ} : {A : Type ℓ} (xs : List A) (i : ℕ) → length xs ≤ i → get_elem? xs i ≡ none
get_none [] i h = refl
get_none (x ∷ xs) zero h = absurd (omega arith)
get_none (x ∷ xs) (suc i) h = get_none xs i (omega arith)

All-get {ℓ κ} :
    {A : Type ℓ} (P : A → Type κ) (xs : List A) (i : ℕ) {v : A}
    → All P xs
    → get_elem? xs i ≡ some v
    → P v
All-get P [] i h e = cc
All-get P (x ∷ xs) zero {v} h e = subst P (some-injective x v e) h.0
All-get P (x ∷ xs) (suc i) h e = All-get P xs i h.1 e

All-set {ℓ κ} :
    {A : Type ℓ} (P : A → Type κ) (xs : List A) (i : ℕ) (v : A)
    → All P xs
    → P v
    → All P (set xs i v)
All-set P [] i v h p = tt
All-set P (x ∷ xs) zero v h p = (p, h.1)
All-set P (x ∷ xs) (suc i) v h p = (h.0, All-set P xs i v h.1 p)

-- Some coordinate does not.
abbrev pub Outside : ℕ → ℕ → ℤ → ℤ → Type 0
Outside h w y x = (1 ≤ neg_part y) ⊎ (1 ≤ neg_part x) ⊎ (h ≤ pos_part y) ⊎ (w ≤ pos_part x)

at_self :
    (g : List Bytes) (y x c : ℕ) (row : Bytes)
    → y < length g
    → x < length row
    → at (set g y (set row x c)) y x ≡ some c
unfolding at
at_self g y x c row h k = rw (get_elem?-set_self g y (set row x c) h) (get_elem?-set_self row x c k)

at_other :
    (g : List Bytes) (y x c : ℕ) (row : Bytes) (y' x' : ℕ)
    → y < length g
    → get_elem? g y ≡ some row
    → (y' ≢ y) ⊎ (x' ≢ x)
    → at (set g y (set row x c)) y' x' ≡ at g y' x'
unfolding at
at_other g y x c row y' x' h e (inl ne) =
    rw (get_elem?-set_ne g y y' (set row x c) (λ p. ne (sym p)))
at_other g y x c row y' x' h e (inr ne) = elim (Bool-cases (y' == y)) [
  | inl same ↦
      let e' : y' ≡ y = ground arith in
      rw (e', get_elem?-set_self g y (set row x c) h, e)
        (get_elem?-set_ne row x x' c (λ p. ne (sym p)))
  | inr other ↦ rw (get_elem?-set_ne g y y' (set row x c) (ground arith))
]

-- In a row that is there, a store is an update of the array.
module _ (h w : ℕ) (g : List Bytes) (size : HasSize h w g) where
  row_at : (y : ℕ) → y < h → (row : Bytes) × (get_elem? g y ≡ some row) × (length row ≡ w)
  row_at y k =
      let (row, e) = get_some g y (omega (arith, size.0)) in
      (row, e, All-get (λ r. length r ≡ w) g y size.1 e)

  pub peek-Inside : (y x : ℤ) → Inside h w y x → (c : ℕ) × (peek g y x ≡ some c)
  unfolding peek
  peek-Inside (pos y) (pos x) i =
      let (row, e, l) = row_at y i.2 in let (c, f) = get_some row x (omega arith) in (c, rw (e, f))
  peek-Inside (pos y) (negsuc x) i = absurd (omega (arith, i.1))
  peek-Inside (negsuc y) x i = absurd (omega (arith, i.0))

  pub peek-Outside : (y x : ℤ) → Outside h w y x → peek g y x ≡ none
  unfolding peek at
  peek-Outside (pos y) (pos x) out = elim (Bool-cases (ltb y h)) [
    | inl k ↦
        let below : y < h = ground arith in
        let (row, e, l) = row_at y below in
        let right : length row ≤ x = omega arith in rw (e, get_none row x right)
    | inr k ↦ rw (get_none g y (ground (arith, size.0)))
  ]
  peek-Outside (pos y) (negsuc x) out = refl
  peek-Outside (negsuc y) x out = refl

  other_cells :
      (y x c : ℕ) (row : Bytes)
      → y < length g
      → get_elem? g y ≡ some row
      → (y' x' : ℤ) → (y' ≢ pos y) ⊎ (x' ≢ pos x)
      → peek (set g y (set row x c)) y' x' ≡ peek g y' x'
  unfolding peek
  other_cells y x c row k e (pos y') (pos x') (inl ne) =
      at_other g y x c row y' x' k e (inl (λ p. ne (ap pos p)))
  other_cells y x c row k e (pos y') (pos x') (inr ne) =
      at_other g y x c row y' x' k e (inr (λ p. ne (ap pos p)))
  other_cells y x c row k e (pos y') (negsuc x') ne = refl
  other_cells y x c row k e (negsuc y') x' ne = refl

  -- What a write does: it succeeds inside the array, and changes that one element.
  pub poke-Inside :
      (y x : ℤ) (c : ℕ)
      → Inside h w y x
      → (g' : List Bytes) × (poke g y x c ≡ some g')
        × HasSize h w g'
        × (peek g' y x ≡ some c)
        × ((y' x' : ℤ) → (y' ≢ y) ⊎ (x' ≢ x) → peek g' y' x' ≡ peek g y' x')
  unfolding poke peek
  poke-Inside (pos y) (pos x) c i =
      let (row, e, l) = row_at y i.2 in
      let row' : Bytes = set row x c in
      (
        set g y row',
        rw (e, store-set row x c (omega arith)),
        (length-set g y row' ∙ size.0, All-set _ g y row' size.1 (length-set row x c ∙ l)),
        at_self g y x c row (omega arith) (omega arith),
        other_cells y x c row (omega arith) e,
      )
  poke-Inside (pos y) (negsuc x) c i = absurd (omega (arith, i.1))
  poke-Inside (negsuc y) x c i = absurd (omega (arith, i.0))
