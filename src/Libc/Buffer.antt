-- ===== src/Libc/Buffer.antt =====
-- Stores into byte arrays: single stores, `memcpy` to the front, `strlen`, and the loops of
-- marshalling.c that copy a field into a local array.
use snuffin.Common.{
  ◌&&◌, false, true, Bool, set, inr, inl, Option-cases, drop_all, ap, ◌∙◌, length-replicate, ◌<◌,
  replicate, ◌+◌, ℕ, zero, suc, ◌≤◌, ◌≡◌, ◌≢◌, refl, Option, none, some, ◌>>=◌, [], ◌∷◌, ◌++◌,
  append_assoc, append-nil, arith, ◌==◌, if◌then◌else◌, length, drop, All, length-append, ==_refl,
}
use snuffin.Common.Int.{ℤ, pos, negsuc}
use snuffin.Libc.Print.{Bytes}

-- `buf[i] = c`
unfoldable pub store : Bytes → ℕ → ℕ → Option Bytes
store [] i c = none
store (o ∷ buf) zero c = some (c ∷ buf)
store (o ∷ buf) (suc i) c = store buf i c >>= λ b. some (o ∷ b)

-- `memcpy(buf, s, n)` for the n bytes s
unfoldable pub memcpy : Bytes → Bytes → Option Bytes
memcpy buf [] = some buf
memcpy [] (c ∷ s) = none
memcpy (o ∷ buf) (c ∷ s) = memcpy buf s >>= λ b. some (c ∷ b)

-- The string that an array starts with; `none` if no byte of it is 0.
unfoldable pub c_string : Bytes → Option Bytes
c_string [] = none
c_string (c ∷ s) = let rest = (c_string s >>= λ t. some (c ∷ t)) in if c == 0 then some [] else rest

-- `for(; data[i] != stop; i++, j++) buf[j] = data[i];` on the unread data, from `data + i`. It returns
-- the array and the data behind the stop.
unfoldable pub copy_until : ℕ → Bytes → ℕ → Bytes → Option (Bytes × Bytes)
unfolding store
copy_until stop [] j buf = none
copy_until stop (c ∷ rest) j buf =
    let next = (store buf j c >>= λ b. copy_until stop rest (suc j) b) in
    if c == stop then some (buf, rest) else next

abbrev pub Lacks : ℕ → Bytes → Type 0
Lacks b = All (λ c. c ≢ b)

pub store_middle :
    (pre : Bytes) (o c : ℕ) (post : Bytes)
    → store (pre ++ o ∷ post) (length pre) c ≡ some (pre ++ c ∷ post)
unfolding store
store_middle [] o c post = refl
store_middle (x ∷ pre) o c post = rw (store_middle pre o c post)

copy_until_from :
    (stop : ℕ) (t rest pre buf : Bytes)
    → Lacks stop t
    → length t ≤ length buf
    → copy_until stop (t ++ stop ∷ rest) (length pre) (pre ++ buf)
      ≡ some (pre ++ t ++ drop (length t) buf, rest)
unfolding copy_until
copy_until_from stop [] rest pre buf h k = rw (==_refl stop, append-nil)
copy_until_from stop (c ∷ t) rest pre [] h k = absurd (omega arith)
copy_until_from stop (c ∷ t) rest pre (o ∷ buf) h k = ground (
  arith,
  store_middle pre o c buf,
  copy_until_from stop t rest (pre ++ c ∷ []) buf h.1,
  append_assoc pre (c ∷ []) buf,
  append_assoc pre (c ∷ []) t,
  length-append pre (c ∷ []),
)

-- A field that fits is copied to the front of the array, and the rest of the array stays.
pub copy_until_lem :
    (stop : ℕ) (t rest buf : Bytes)
    → Lacks stop t
    → length t ≤ length buf
    → copy_until stop (t ++ stop ∷ rest) 0 buf ≡ some (t ++ drop (length t) buf, rest)
copy_until_lem stop t rest buf = copy_until_from stop t rest [] buf

store_end : (pre : Bytes) (c : ℕ) → store pre (length pre) c ≡ none
unfolding store
store_end [] c = refl
store_end (x ∷ pre) c = rw (store_end pre c)

overflow_from :
    (stop : ℕ) (t rest pre buf : Bytes)
    → Lacks stop t
    → length buf < length t
    → copy_until stop (t ++ rest) (length pre) (pre ++ buf) ≡ none
unfolding copy_until
overflow_from stop [] rest pre buf h k = absurd (omega arith)
overflow_from stop (c ∷ t) rest pre [] h k = ground (arith, append-nil pre, store_end pre c)
overflow_from stop (c ∷ t) rest pre (o ∷ buf) h k = ground (
  arith,
  store_middle pre o c buf,
  overflow_from stop t rest (pre ++ c ∷ []) buf h.1,
  append_assoc pre (c ∷ []) buf,
  length-append pre (c ∷ []),
)

-- A field that is longer than the array is written behind its end.
pub copy_until_overflow :
    (stop : ℕ) (t rest buf : Bytes)
    → Lacks stop t
    → length buf < length t
    → copy_until stop (t ++ rest) 0 buf ≡ none
copy_until_overflow stop t rest buf = overflow_from stop t rest [] buf

pub memcpy_lem :
    (buf s : Bytes) → length s ≤ length buf → memcpy buf s ≡ some (s ++ drop (length s) buf)
unfolding memcpy
memcpy_lem buf [] h = ground arith
memcpy_lem [] (c ∷ s) h = absurd (omega arith)
memcpy_lem (o ∷ buf) (c ∷ s) h = rw (memcpy_lem buf s (omega arith))

pub memcpy_overflow : (buf s : Bytes) → length buf < length s → memcpy buf s ≡ none
unfolding memcpy
memcpy_overflow buf [] h = absurd (omega arith)
memcpy_overflow [] (c ∷ s) h = refl
memcpy_overflow (o ∷ buf) (c ∷ s) h = rw (memcpy_overflow buf s (omega arith))

pub c_string_lem : (t r : Bytes) → Lacks 0 t → c_string (t ++ 0 ∷ r) ≡ some t
unfolding c_string
c_string_lem [] r h = refl
c_string_lem (c ∷ t) r h = ground (arith, c_string_lem t r h.1)

-- `sprintf(buf, …)` of a text, with the 0 that ends it.
unfoldable pub sprintf : Bytes → Bytes → Option Bytes
unfolding memcpy
sprintf buf text = memcpy buf (text ++ 0 ∷ [])

-- `calloc(n, 1)`: a negative n is a size that no allocation meets, and the null pointer is `none`.
unfoldable pub calloc : ℤ → Option Bytes
calloc (pos n) = some (replicate n 0)
calloc (negsuc n) = none

-- A text that fills its array but for one byte.
pub sprintf-exact :
    (text : Bytes) (n : ℕ)
    → n ≡ length text + 1
    → sprintf (replicate n 0) text ≡ some (text ++ 0 ∷ [])
unfolding sprintf
sprintf-exact text n e =
    let zeros : Bytes = replicate n 0 in
    let size : length zeros ≡ n = length-replicate {A = ℕ} n 0 in
    let full : length (text ++ 0 ∷ []) ≡ length text + 1 = length-append text (0 ∷ []) in
    memcpy_lem zeros (text ++ 0 ∷ []) (omega arith)
    ∙ ap some (
        ap (λ l. (text ++ 0 ∷ []) ++ l) (drop_all (length (text ++ 0 ∷ [])) zeros (omega arith))
        ∙ append-nil (text ++ 0 ∷ []))

-- A string that runs on into the memory behind its array.
pub c_string-append :
    (t r : Bytes) {u : Bytes} → Lacks 0 t → c_string r ≡ some u → c_string (t ++ r) ≡ some (t ++ u)
unfolding c_string
c_string-append [] r h e = e
c_string-append (c ∷ t) r h e = ground (arith, c_string-append t r h.1 e)

pub length-memcpy : (buf s : Bytes) {b : Bytes} → memcpy buf s ≡ some b → length b ≡ length buf
unfolding memcpy
length-memcpy buf [] e = ground arith
length-memcpy [] (c ∷ s) e = cc
length-memcpy (o ∷ buf) (c ∷ s) {b} e = elim (Option-cases (memcpy buf s)) [
  | inl f ↦ ground arith
  | inr (a, f) ↦ ground (arith, length-memcpy buf s f)
]

-- A copy that replaces the whole array.
pub memcpy_whole : (buf s : Bytes) → length buf ≡ length s → memcpy buf s ≡ some s
memcpy_whole buf s e =
    memcpy_lem buf s (omega arith)
    ∙ ap some (ap (λ l. s ++ l) (drop_all (length s) buf (omega arith)) ∙ append-nil s)

-- A string with its final 0 goes to the front of an array that has room for it.
pub memcpy_string :
    (buf t : Bytes)
    → length t < length buf
    → memcpy buf (t ++ 0 ∷ []) ≡ some (t ++ 0 ∷ drop (length t + 1) buf)
memcpy_string buf t h =
    let size : length (t ++ 0 ∷ []) ≡ length t + 1 = length-append t (0 ∷ []) in
    memcpy_lem buf (t ++ 0 ∷ []) (omega arith)
    ∙ ap some (
        append_assoc t (0 ∷ []) (drop (length (t ++ 0 ∷ [])) buf)
        ∙ ap (λ n. t ++ 0 ∷ drop n buf) size)

-- A store inside an array is an update of it.
pub store-set : (row : Bytes) (x c : ℕ) → x < length row → store row x c ≡ some (set row x c)
unfolding store
store-set [] x c h = absurd (omega arith)
store-set (o ∷ row) zero c h = refl
store-set (o ∷ row) (suc x) c h = rw (store-set row x c (omega arith))

-- `strcmp(…) == 0`
unfoldable pub same_bytes : Bytes → Bytes → Bool
same_bytes [] [] = true
same_bytes [] (b ∷ bs) = false
same_bytes (a ∷ as') [] = false
same_bytes (a ∷ as') (b ∷ bs) = a == b && same_bytes as' bs
