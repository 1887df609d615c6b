-- ===== src/Marshalling/Faults.antt =====
-- Where the functions of marshalling.c go wrong: local arrays that no one terminates, targets that
-- are too small, and the stride of the board's cells.
use snuffin.Marshalling.RoundTrip.{calloc_room}
use snuffin.Marshalling.Sizes.{marsh_server_id_lem, marsh_string_lem}
use snuffin.Libc.Strtol.{read_int_open, read_int_stale, show_int_pos, strtol-show_int, Stops}
use snuffin.Marshalling.Encode.{marsh_server_id, marsh_string}
use snuffin.Marshalling.Fields.{show_int-Lacks-sep, show_int-Lacks_zero, sep_field, Fits}
use snuffin.Marshalling.Tags.{player_tag, sep}
use snuffin.Common.Int.{pos, ℤ}
use snuffin.Libc.Print.{show_int, Bytes}
use snuffin.Structs.{Player}
use snuffin.Marshalling.Decode.{
  Frame, unmarsh_string, copy_string, unmarsh_player, unmarsh_server_id,
}
use snuffin.Libc.Buffer.{
  memcpy_overflow, c_string_lem, copy_until_lem, copy_until_overflow, Lacks, c_string,
}
use snuffin.Common.{
  length-append, drop-replicate, zero, length-replicate, suc, replicate, append_assoc, inr,
  append-nil, ◌∙◌, inl, refl, drop_all, [], ltb, ◌^◌, ap, Bool-cases, arith, ◌<◌, drop, ◌+◌, some,
  ◌∷◌, ◌++◌, ◌*◌, ◌≡◌, ◌≤◌, none, length, ℕ, ◌>>=◌, List,
}
use snuffin.Marshalling.Message.{fresh_string, unmarshalling}

-- A digit that the array `num` happens to hold behind the text is read as a part of the number.
pub unmarsh_server_id-stale :
    (n d : ℕ) (p : ℤ) (frame : Frame) (s stale : Bytes)
    → n * 10 + d < 2 ^ 31
    → d < 10
    → length (show_int (pos n)) ≤ length frame.num
    → drop (length (show_int (pos n))) frame.num ≡ (b'0' + d) ∷ s
    → Stops s
    → (marsh_server_id (pos n) >>= λ (bytes, _). unmarsh_server_id frame (bytes ++ stale) p)
      ≡ some (1, pos (n * 10 + d))
unfolding unmarsh_server_id
unmarsh_server_id-stale n d p frame s stale h k room e stop = rw (
  marsh_server_id_lem (pos n) (omega arith),
  append_assoc,
  copy_until_lem 0 (show_int (pos n)) stale frame.num (show_int-Lacks_zero (pos n)) room,
  e,
  show_int_pos,
  read_int_stale n d s h k stop,
)

-- A string of eight bytes or more overflows the eight bytes that `unmarshalling` allocates for it.
pub unmarshalling-long_string :
    (s text : Bytes) (frame : Frame) (stale : Bytes) (type : ℤ)
    → c_string s ≡ some text
    → Lacks 0 text
    → length text < 2 ^ 31
    → Fits (pos (length text)) frame.num
    → 8 ≤ length text
    → (marsh_string s >>= λ (d, n).
        unmarshalling frame (some (record { bytes = some (d ++ stale); size = pos n })) type)
      ≡ none
unfolding unmarshalling unmarsh_string copy_string
unmarshalling-long_string s text frame stale type e lacks h fits long = rw (
  marsh_string_lem s text e h,
  append_assoc,
  append_assoc,
  sep_field (pos (length text)) _ frame.num fits,
  strtol-show_int (length text) (drop (length (show_int (pos (length text)))) frame.num)
      (omega arith) fits.1,
  calloc_room (length text),
  copy_until_lem 0 text stale (replicate (suc (length text)) 0) lacks
      (omega (arith, length-replicate (suc (length text)) zero)),
  drop-replicate (length text) zero,
  c_string_lem text [] lacks,
  memcpy_overflow fresh_string (text ++ 0 ∷ []) (omega (arith, length-append text (0 ∷ []))),
)

-- A string of digits that fills its array has no end there.
no_string : (s : Bytes) → Lacks 0 s → c_string s ≡ none
unfolding c_string
no_string [] h = refl
no_string (c ∷ s) h = ground (arith, no_string s h.1)

drop_full {ℓ} :
    {A : Type ℓ} (xs ys : List A) → length ys ≤ length xs → xs ++ drop (length xs) ys ≡ xs
drop_full xs ys h = ap (λ l. xs ++ l) (drop_all (length xs) ys h) ∙ append-nil xs

-- A name that is as long as the array `nombre`, or longer, is copied to its end or past it, and is
-- then read past the end.
pub unmarsh_player-long_name :
    (name rest : Bytes) (frame : Frame) (q : Player)
    → Lacks sep name
    → Lacks 0 name
    → length frame.nombre ≤ length name
    → unmarsh_player frame (player_tag ∷ name ++ sep ∷ rest) q ≡ none
unfolding unmarsh_player copy_string
unmarsh_player-long_name name rest frame q lacks ended long =
    elim (Bool-cases (ltb (length frame.nombre) (length name))) [
      | inl longer ↦
          rw (copy_until_overflow sep name (sep ∷ rest) frame.nombre lacks (ground arith))
      | inr equal ↦
          rw
            (
              copy_until_lem sep name rest frame.nombre lacks (ground arith),
              drop_full name frame.nombre long,
              no_string name ended,
            )
            (ground arith)
    ]

-- A score with more digits than the array `num2` has bytes, or with just as many.
pub unmarsh_player-long_score :
    (num : ℤ) (score : ℕ) (name rest : Bytes) (frame : Frame) (q : Player)
    → Lacks sep name
    → length name ≤ length frame.nombre
    → Fits num frame.num
    → length frame.num2 ≤ length (show_int (pos score))
    → unmarsh_player frame
        (player_tag ∷ name ++ sep ∷ (show_int num ++ sep ∷ (show_int (pos score) ++ sep ∷ rest)))
        q
      ≡ none
unfolding unmarsh_player
unmarsh_player-long_score num score name rest frame q lacks room fits long =
    rw (copy_until_lem sep name _ frame.nombre lacks room, sep_field num _ frame.num fits)
      (elim (Bool-cases (ltb (length frame.num2) (length (show_int (pos score))))) [
        | inl longer ↦ rw (
            copy_until_overflow sep (show_int (pos score)) (sep ∷ rest) frame.num2
              (show_int-Lacks-sep (pos score)) (ground arith))
        | inr equal ↦
            rw
              (
                copy_until_lem sep (show_int (pos score)) rest frame.num2
                    (show_int-Lacks-sep (pos score)) (ground arith),
                drop_full (show_int (pos score)) frame.num2 long,
                read_int_open score,
              )
              (ground arith)
      ])
