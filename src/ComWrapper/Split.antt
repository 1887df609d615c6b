-- ===== src/ComWrapper/Split.antt =====
-- `split` and `clearArr` of comWrapper.c: the strings that end in a 0 within the bytes received.
use snuffin.Common.Int.{pos, pos_part, ℤ}
use snuffin.Libc.Buffer.{memcpy_lem, store, store_middle, memcpy, Lacks}
use snuffin.Libc.Print.{Bytes}
use snuffin.Common.{
  replicate-add, ◌-◌, ltb-true, drop-replicate_two, ==_refl, take_suc, All, length-replicate, refl,
  length-append, append_assoc, ◌∙◌, ap₂, append-nil, sym, ◌≤◌, ap, zero, ltb, take, ◌>>=◌, arith,
  [], ◌+◌, ◌==◌, ◌≡◌, none, if◌then◌else◌, length, some, suc, ◌++◌, ◌≢◌, replicate, Option, ◌∷◌,
  List, ℕ,
}

abbrev pub block : ℕ
block = 5

unfoldable pub clear_arr : Bytes → ℕ → Bytes
clear_arr arr size = replicate size 0

-- `res[total] = calloc(k + 2, 1)` and the copy of `aux[0 .. k]` to it, with the array `res` grown by
-- a block before it is full. The result is `res` and its capacity.
unfoldable pub add_string : Bytes → ℕ → List Bytes → ℕ → Option (List Bytes × ℕ)
add_string aux k res capacity = do
  let capacity' = if length res == capacity then length res + block else capacity
  let copied = take (k + 1) aux
  s ← (if length copied == k + 1 then memcpy (replicate (k + 2) 0) copied else none)
  if ltb (length res) capacity' then some (res ++ s ∷ [], capacity') else none

-- `left` bytes are left to look at; `k` is auxCounter.
split_loop : ℕ → ℕ → Bytes → Bytes → ℕ → List Bytes → ℕ → Option (List Bytes)
split_loop size zero source aux k res capacity = some res
split_loop size (suc left) [] aux k res capacity = none
split_loop size (suc left) (c ∷ source) aux k res capacity =
    let cut =
      (add_string aux k res capacity >>= λ (res', capacity').
      split_loop size left source (clear_arr aux size) 0 res' capacity') in
    let keep = (store aux k c >>= λ aux'. split_loop size left source aux' (k + 1) res capacity) in
    if c == 0 then cut else keep

-- The strings found; no string is the null pointer, to which `realloc` shrinks an array of none. A
-- negative size, after a failed call, is a loop of no rounds.
unfoldable pub split : Bytes → ℤ → Option (List Bytes)
unfolding split_loop
split source size =
    split_loop (pos_part size) (pos_part size) source (replicate (pos_part size) 0) 0 [] block

-- The strings as they arrive, each with its final 0, and as they are stored, with one more.
abbrev pub framed : List Bytes → Bytes
framed [] = []
framed (s ∷ ss) = s ++ 0 ∷ framed ss

abbrev pub stored : List Bytes → List Bytes
stored [] = []
stored (s ∷ ss) = (s ++ 0 ∷ 0 ∷ []) ∷ stored ss

-- `aux` is what has been read of the current string, and zeros behind it.
keep_byte :
    (size left c : ℕ) (cur source zeros : Bytes) (res : List Bytes) (capacity : ℕ)
    → c ≢ 0
    → split_loop size (suc left) (c ∷ source) (cur ++ 0 ∷ zeros) (length cur) res capacity
      ≡ split_loop size left source (cur ++ c ∷ zeros) (length cur + 1) res capacity
unfolding split_loop
keep_byte size left c cur source zeros res capacity h = ground (arith, store_middle cur 0 c zeros)

keep_string :
    (size left m k : ℕ) (s cur source zeros : Bytes) (res : List Bytes) (capacity : ℕ)
    → Lacks 0 s
    → m ≡ length s + left
    → k ≡ length cur
    → split_loop size m (s ++ source) (cur ++ (replicate (length s) 0 ++ zeros)) k res capacity
      ≡ split_loop size left source ((cur ++ s) ++ zeros) (k + length s) res capacity
keep_string size left m k [] cur source zeros res capacity h e f =
    let all : Bytes = cur ++ zeros in
    let same : all ≡ (cur ++ []) ++ zeros = ap (λ l. l ++ zeros) (sym (append-nil cur)) in
    rw (← same)
      (ap₂ (λ a b. split_loop size a source all b res capacity) (omega arith) (omega arith))
keep_string size left m k (c ∷ s) cur source zeros res capacity h e f =
    let rest : Bytes = replicate (length s) 0 ++ zeros in
    let rounds : m ≡ suc (length s + left) = omega arith in
    ap₂ (λ a b. split_loop size a (c ∷ s ++ source) (cur ++ 0 ∷ rest) b res capacity) rounds f
    ∙ keep_byte size (length s + left) c cur (s ++ source) rest res capacity h.0
    ∙ ap₂ (λ a b. split_loop size (length s + left) (s ++ source) a b res capacity)
        (sym (append_assoc cur (c ∷ []) rest)) (sym (length-append cur (c ∷ [])))
    ∙ keep_string size left (length s + left) (length (cur ++ c ∷ [])) s (cur ++ c ∷ []) source
        zeros res capacity h.1 refl refl
    ∙ ap₂ (λ a b. split_loop size left source (a ++ zeros) b res capacity)
        (append_assoc cur (c ∷ []) s) (omega (arith, length-append cur (c ∷ [])))

-- At its 0 a string is stored, and `aux` is cleared.
add_string_lem :
    (s zeros : Bytes) (res : List Bytes) (capacity : ℕ)
    → length res ≤ capacity
    → (capacity' : ℕ) × (length res + 1 ≤ capacity')
      × (add_string (s ++ 0 ∷ zeros) (length s) res capacity
          ≡ some (res ++ (s ++ 0 ∷ 0 ∷ []) ∷ [], capacity'))
unfolding add_string
add_string_lem s zeros res capacity room =
    let k : ℕ = length s in
    let copied : Bytes = s ++ 0 ∷ [] in
    let grown : ℕ = if length res == capacity then length res + block else capacity in
    let room' : length res + 1 ≤ grown = ground arith in
    let size : length copied ≡ k + 1 = length-append s (0 ∷ []) in
    let fits : length (replicate {A = ℕ} (k + 2) 0) ≡ k + 2 = length-replicate {A = ℕ} (k + 2) 0 in
    (
      grown,
      room',
      rw (
        take_suc s 0 zeros,
        size,
        ==_refl (k + 1),
        memcpy_lem (replicate (k + 2) 0) copied (omega arith),
        size,
        drop-replicate_two k zero,
        append_assoc s (0 ∷ []) (0 ∷ []),
        ltb-true (length res) grown (omega arith),
      ),
    )

cut_string :
    (size left : ℕ) (source aux : Bytes) (k : ℕ) (res : List Bytes) (capacity : ℕ) {r : List Bytes}
    {capacity' : ℕ}
    → add_string aux k res capacity ≡ some (r, capacity')
    → split_loop size (suc left) (0 ∷ source) aux k res capacity
      ≡ split_loop size left source (replicate size 0) 0 r capacity'
unfolding split_loop clear_arr
cut_string size left source aux k res capacity e = rw e

zeros_for : (size n : ℕ) → n ≤ size → replicate size zero ≡ replicate n 0 ++ replicate (size - n) 0
zeros_for size n h =
    let e : size ≡ n + (size - n) = omega arith in
    ap (λ m. replicate m zero) e ∙ replicate-add n (size - n) zero

-- The bytes received are strings with their 0, then a string without one, `tail`; `beyond` is what
-- the buffer holds behind them.
strings :
    (size m : ℕ) (ss : List Bytes) (tail beyond : Bytes) (res : List Bytes) (capacity : ℕ)
    → All (Lacks 0) ss
    → Lacks 0 tail
    → m ≡ length (framed ss) + length tail
    → m ≤ size
    → length res ≤ capacity
    → split_loop size m (framed ss ++ (tail ++ beyond)) (replicate size 0) 0 res capacity
      ≡ some (res ++ stored ss)
unfolding split_loop
strings size m [] tail beyond res capacity h t e room fits =
    let zeros : Bytes = replicate (size - length tail) 0 in
    ap (λ aux. split_loop size m (tail ++ beyond) aux 0 res capacity)
      (zeros_for size (length tail) (omega arith))
    ∙ keep_string size 0 m 0 tail [] beyond zeros res capacity t (omega arith) refl
    ∙ ap some (sym (append-nil res))
strings size m (s ∷ ss) tail beyond res capacity h t e room fits =
    let rest : Bytes = framed ss ++ (tail ++ beyond) in
    let left : ℕ = length (framed ss) + length tail in
    let zeros : Bytes = replicate (size - length s - 1) 0 in
    let here : length (framed (s ∷ ss)) ≡ length s + suc (length (framed ss)) =
      length-append s (0 ∷ framed ss) in
    let one : size - length s ≡ suc (size - length s - 1) = omega arith in
    let blank : replicate size zero ≡ replicate (length s) 0 ++ 0 ∷ zeros =
      zeros_for size (length s) (omega arith)
      ∙ ap (λ n. replicate (length s) 0 ++ replicate n 0) one in
    let item : Bytes = s ++ 0 ∷ 0 ∷ [] in
    let start : 0 + length s ≡ length s = omega arith in
    let (capacity', room', added) = add_string_lem s zeros res capacity fits in
    ap₂ (λ source aux. split_loop size m source aux 0 res capacity)
      (append_assoc s (0 ∷ framed ss) (tail ++ beyond)) blank
    ∙ keep_string size (suc left) m 0 s [] (0 ∷ rest) (0 ∷ zeros) res capacity h.0 (omega arith)
        refl
    ∙ ap (λ k. split_loop size (suc left) (0 ∷ rest) (s ++ 0 ∷ zeros) k res capacity) start
    ∙ cut_string size left rest (s ++ 0 ∷ zeros) (length s) res capacity added
    ∙ strings size left ss tail beyond (res ++ item ∷ []) capacity' h.1 t refl (omega arith)
        (omega (arith, length-append res (item ∷ [])))
    ∙ ap some (append_assoc res (item ∷ []) (stored ss))

-- The strings that end within the bytes received are stored, in their order and whatever their
-- number; the rest, which has no 0, is dropped.
pub split_lem :
    (ss : List Bytes) (tail beyond : Bytes)
    → All (Lacks 0) ss
    → Lacks 0 tail
    → split (framed ss ++ (tail ++ beyond)) (pos (length (framed ss ++ tail))) ≡ some (stored ss)
unfolding split
split_lem ss tail beyond h t =
    let size : ℕ = length (framed ss ++ tail) in
    strings size size ss tail beyond [] block h t (length-append (framed ss) tail) (omega arith)
      (omega arith)
