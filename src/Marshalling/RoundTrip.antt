-- ===== src/Marshalling/RoundTrip.antt =====
-- What a `marsh…` function writes, the `unmarsh…` function of the same message reads back, whatever
-- stands behind the message in the receiver's buffer, if the local arrays are large enough and hold
-- no digit where a number ends.
use snuffin.Marshalling.Tags.{sep}
use snuffin.Libc.Buffer.{c_string_lem, memcpy_lem, copy_until_lem, Lacks, c_string, calloc}
use snuffin.Libc.Strtol.{Stops, strtol-show_int, is_digit}
use snuffin.Marshalling.Sizes.{
  marsh_string_lem, marsh_player_lem, marsh_boolean_lem, marsh_point_lem, marsh_server_id_lem,
}
use snuffin.Marshalling.Encode.{
  marsh_string, marsh_player, marsh_point, marsh_boolean, marsh_server_id,
}
use snuffin.Marshalling.Fields.{read_field, sep_field, last_field, Fits}
use snuffin.Common.{
  drop_append, sym, ◌∙◌, subst, ◌-◌, drop-replicate, zero, length-replicate, replicate, suc,
  length-append, [], ◌+◌, ◌^◌, ◌<◌, false, ◌≤◌, ℕ, ◌∷◌, inr, arith, append_assoc, inl, some, length,
  drop, ◌>>=◌, ◌⊎◌, ◌++◌, ◌≡◌,
}
use snuffin.Structs.{Player, Point}
use snuffin.Libc.Print.{length-digits_ge, length-digits_le, Bytes, show_int}
use snuffin.Common.Int.{
  negsuc, int_laws, neg_part, pos_part, add_int_back, add_int-eq, pos, ◌+ℤ◌, IsInt, ℤ,
}
use snuffin.Marshalling.Decode.{
  copy_string, unmarsh_string, unmarsh_player, Frame, unmarsh_point, unmarsh_server_id,
  unmarsh_boolean,
}

-- A server number is read back.
pub unmarsh-marsh_server_id :
    (n p : ℤ) (frame : Frame) (stale : Bytes)
    → IsInt n
    → Fits n frame.num
    → (marsh_server_id n >>= λ (d, _). unmarsh_server_id frame (d ++ stale) p) ≡ some (1, n)
unfolding unmarsh_server_id
unmarsh-marsh_server_id n p frame stale h fits = rw (
  marsh_server_id_lem n h,
  append_assoc,
  last_field n stale frame.num fits,
  read_field n frame.num h fits,
)

-- The two values of a flag are read back.
pub unmarsh-marsh_boolean :
    (value old : ℤ) (stale : Bytes)
    → (value ≡ pos 0) ⊎ (value ≡ pos 1)
    → (marsh_boolean value >>= λ (d, _). unmarsh_boolean (d ++ stale) old) ≡ some (1, value)
unfolding unmarsh_boolean show_int
unmarsh-marsh_boolean value old stale (inl e) = rw (e, marsh_boolean_lem (pos 0) (omega arith))
unmarsh-marsh_boolean value old stale (inr e) = rw (e, marsh_boolean_lem (pos 1) (omega arith))

-- The coordinates of a point are read back. Both go through the array `num`, so the text of the
-- second must end at or behind the end of the first, or at a byte that is no digit.
pub unmarsh-marsh_point :
    (s p : Point) (frame : Frame) (stale : Bytes)
    → IsInt s.x
    → IsInt s.y
    → IsInt (s.x +ℤ pos b'0')
    → IsInt (s.y +ℤ pos b'0')
    → Fits (s.x +ℤ pos b'0') frame.num
    → Fits
        (s.y +ℤ pos b'0')
        (show_int (s.x +ℤ pos b'0') ++ drop (length (show_int (s.x +ℤ pos b'0'))) frame.num)
    → (marsh_point s >>= λ (d, _). unmarsh_point frame (d ++ stale) p) ≡ some (1, s)
unfolding unmarsh_point
unmarsh-marsh_point s p frame stale hx hy ha hb fx fy =
    let a = s.x +ℤ pos b'0' in
    let b = s.y +ℤ pos b'0' in
    let num : Bytes = show_int a ++ drop (length (show_int a)) frame.num in
    rw (
      marsh_point_lem s a b (add_int-eq s.x (pos b'0') ha) (add_int-eq s.y (pos b'0') hb) ha hb,
      append_assoc,
      append_assoc,
      sep_field a (show_int b ++ 0 ∷ stale) frame.num fx,
      read_field a frame.num ha fx,
      add_int_back s.x b'0' hx,
      last_field b stale num fy,
      read_field b num hb fy,
      add_int_back s.y b'0' hy,
    )

-- A direction has coordinates between -1 and 1.
abbrev pub IsUnit : ℤ → Type 0
IsUnit a = (pos_part a ≤ 1) × (neg_part a ≤ 1)

direction_code : (a : ℤ) → IsUnit a → (m : ℕ) × (a +ℤ pos b'0' ≡ pos m) × (47 ≤ m) × (m ≤ 49)
unfolding ◌+ℤ◌
direction_code (pos n) u = (n + 48, ground arith, omega arith, omega arith)
direction_code (negsuc n) u = (47 - n, ground arith, omega arith, omega arith)

direction-IsInt : (a : ℤ) → IsUnit a → IsInt (a +ℤ pos b'0')
direction-IsInt a u = let (m, e, lo, hi) = direction_code a u in rw e (omega arith, omega arith)

length-show_direction : (a : ℤ) → IsUnit a → length (show_int (a +ℤ pos b'0')) ≡ 2
unfolding show_int
length-show_direction a u =
    let (m, e, lo, hi) = direction_code a u in
    rw e (omega (arith, length-digits_le 1 m (omega arith), length-digits_ge 1 m (omega arith)))

second_text :
    (a b : Bytes) (u v c : ℕ) (rest : Bytes)
    → length a ≡ 2
    → length b ≡ 2
    → is_digit c ≡ false
    → (length b ≤ length (a ++ c ∷ rest)) × Stops (drop (length b) (a ++ c ∷ rest))
second_text a b u v c rest la lb stop = (
  omega (arith, length-append a (c ∷ rest)),
  subst (λ l. Stops (drop l (a ++ c ∷ rest))) (la ∙ sym lb) (rw drop_append stop),
)

-- The coordinates of a direction are printed with two digits each, so it is read back if the array
-- holds no digit behind its second byte.
pub unmarsh-marsh_direction :
    (s p : Point) (frame : Frame) (u v c : ℕ) (rest stale : Bytes)
    → IsUnit s.x
    → IsUnit s.y
    → frame.num ≡ u ∷ v ∷ c ∷ rest
    → is_digit c ≡ false
    → (marsh_point s >>= λ (d, _). unmarsh_point frame (d ++ stale) p) ≡ some (1, s)
unmarsh-marsh_direction s p frame u v c rest stale ux uy e stop =
    let a = s.x +ℤ pos b'0' in
    let b = s.y +ℤ pos b'0' in
    let la : length (show_int a) ≡ 2 = length-show_direction s.x ux in
    let lb : length (show_int b) ≡ 2 = length-show_direction s.y uy in
    unmarsh-marsh_point s p frame stale (omega arith) (omega arith) (direction-IsInt s.x ux)
      (direction-IsInt s.y uy) (rw (la, e) (omega arith, stop))
      (rw (la, e) (second_text (show_int a) (show_int b) u v c rest la lb stop))

-- A player is read back: the numbers, and the name as a string that ends in a 0. The name must be
-- free of separators, the array `nombre` must hold a 0 behind it, and the target must have room.
pub unmarsh-marsh_player :
    (p q : Player) (frame : Frame) (name stale : Bytes)
    → c_string p.name ≡ some name
    → Lacks sep name
    → IsInt p.num
    → IsInt p.score
    → IsInt p.ready
    → length name ≤ length frame.nombre
    → c_string (name ++ drop (length name) frame.nombre) ≡ some name
    → Fits p.num frame.num
    → Fits p.score frame.num2
    → Fits p.ready frame.num3
    → length name < length q.name
    → (marsh_player p >>= λ (d, _). unmarsh_player frame (d ++ stale) q)
      ≡ some (1, record p { name = name ++ 0 ∷ drop (length name + 1) q.name })
unfolding unmarsh_player copy_string
unmarsh-marsh_player p q frame name stale e lacks hn hs hr room ends fn fs fr target = rw (
  marsh_player_lem p name e hn hs hr,
  append_assoc,
  append_assoc,
  append_assoc,
  append_assoc,
  copy_until_lem sep name _ frame.nombre lacks room,
  sep_field p.num _ frame.num fn,
  sep_field p.score _ frame.num2 fs,
  last_field p.ready stale frame.num3 fr,
  read_field p.num frame.num hn fn,
  read_field p.score frame.num2 hs fs,
  read_field p.ready frame.num3 hr fr,
  ends,
  memcpy_lem q.name (name ++ 0 ∷ []) (omega (arith, length-append name (0 ∷ []))),
  length-append name (0 ∷ []),
  append_assoc,
)

-- The array for a string of n bytes and its final 0.
pub calloc_room : (n : ℕ) → calloc (pos n +ℤ pos 1) ≡ some (replicate (suc n) 0)
unfolding calloc
calloc_room n = rw plus_one
  where
    plus_one : pos n +ℤ pos 1 ≡ pos (suc n)
    plus_one = omega int_laws

-- A string is read back into a target with room for it and its final 0.
pub unmarsh-marsh_string :
    (s dst text : Bytes) (frame : Frame) (stale : Bytes)
    → c_string s ≡ some text
    → Lacks 0 text
    → length text < 2 ^ 31
    → Fits (pos (length text)) frame.num
    → length text < length dst
    → (marsh_string s >>= λ (d, _). unmarsh_string frame (d ++ stale) dst)
      ≡ some (1, text ++ 0 ∷ drop (length text + 1) dst)
unfolding unmarsh_string copy_string calloc
unmarsh-marsh_string s dst text frame stale e lacks h fits room = rw (
  marsh_string_lem s text e h,
  append_assoc,
  append_assoc,
  sep_field (pos (length text)) _ frame.num fits,
  strtol-show_int (length text) (drop (length (show_int (pos (length text)))) frame.num)
      (omega arith) fits.1,
  calloc_room (length text),
  copy_until_lem 0 text stale (replicate (suc (length text)) 0) lacks
      (omega (arith, length-replicate (suc (length text)) zero)),
  drop-replicate (length text) zero,
  c_string_lem text [] lacks,
  memcpy_lem dst (text ++ 0 ∷ []) (omega (arith, length-append text (0 ∷ []))),
  length-append text (0 ∷ []),
  append_assoc,
)
