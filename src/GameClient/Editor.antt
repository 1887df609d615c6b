-- ===== src/GameClient/Editor.antt =====
-- `getPass` of client.c is an editor of one line.
use snuffin.Game.Valid.{assign-set}
use snuffin.Game.Board.{assign}
use snuffin.GameClient.Line.{
  entered_lem, press_enter, press_back, type_pass_stop, grown, press_stored, next_place,
  press_blank, type_pass_key, full_lem, type_pass_end, Finish,
}
use snuffin.GameClient.Lobby.{max_word}
use snuffin.Libc.Print.{Bytes}
use snuffin.Common.{
  length-set, sym, ◌<◌, ◌<◌, false, not, ◌&&◌, refl, inr, ap, ◌∙◌, inl, ◌==◌, ◌-◌, ◌+◌, Bool-cases,
  suc, ltb-true, subst, ◌∷◌, arith, some, none, [], ◌≤◌, ◌++◌, ◌≡◌, length, ℕ, List,
}
use snuffin.GameClient.Typing.{backspace, type_pass, in_order, get_pass, edit}

-- What the array says after the keys is what the editor says.
type_pass_lem :
    (keys typed : List ℕ) (junk : Bytes)
    → length (in_order typed ++ junk) ≡ max_word
    → length typed ≤ max_word
    → Finish (edit typed keys) (type_pass keys (length typed) (in_order typed ++ junk))
unfolding edit
type_pass_lem [] [] junk size le = (0, junk, omega arith, type_pass_end 0 junk)
type_pass_lem [] (k ∷ typed) junk size le =
    let over = type_pass_end (suc (length typed)) (in_order (k ∷ typed) ++ junk) in
    elim (Bool-cases (length typed + 1 == max_word)) [
      | inl full ↦ rw (full, over) (full_lem k typed junk [] size (ground (arith, full)))
      | inr room ↦
          rw (room, over)
            (suc (length typed), in_order (k ∷ typed) ++ junk, ground (arith, room, le), refl)
    ]
type_pass_lem (c ∷ cs) [] junk size le = elim (Bool-cases (c == b'\n')) [
  | inl blank ↦
      rw (blank, type_pass_key c cs 0 junk 0 junk (omega arith) (press_blank c junk blank))
        (type_pass_lem cs [] junk size le)
  | inr more ↦
      let (j, rest, e) = next_place [] junk size (omega arith) in
      let key : (c == backspace && not (0 == 0)) ≡ false = ground arith in
      rw (more, e, type_pass_key c cs 0 _ _ _ (omega arith) (press_stored c [] j rest key more))
        (type_pass_lem cs (c ∷ []) rest (grown c [] j rest (rw (e) at size)) (omega arith))
]
type_pass_lem (c ∷ cs) (k ∷ typed) junk size le = elim (Bool-cases (length typed + 1 == max_word)) [
  | inl full ↦
      rw
        (
          full,
          type_pass_stop (c ∷ cs) (suc (length typed)) (in_order (k ∷ typed) ++ junk)
              (ground (arith, full)),
        )
        (full_lem k typed junk (c ∷ cs) size (ground (arith, full)))
  | inr room ↦
      let less : suc (length typed) < max_word = ground (arith, room, le) in
      elim (Bool-cases (c == backspace)) [
        | inl back ↦
            let (back_size, pressed) = press_back c k typed junk size back in
            rw (room, back, type_pass_key c cs (suc (length typed)) _ _ _ less pressed)
              (type_pass_lem cs typed (k ∷ junk) back_size (omega (arith, le)))
        | inr key ↦ elim (Bool-cases (c == b'\n')) [
          | inl enter ↦
              let (j, rest, e) = next_place (k ∷ typed) junk size less in
              let ended : (c == backspace && not (suc (length typed) == 0)) ≡ false =
                rw (key) refl in
              rw
                (
                  room,
                  key,
                  enter,
                  e,
                  type_pass_key c cs (suc (length typed)) _ _ _ less
                      (press_enter c (k ∷ typed) j rest ended enter (omega arith)),
                  type_pass_stop cs max_word (in_order (k ∷ typed) ++ 0 ∷ rest) (omega arith),
                )
                (entered_lem (k ∷ typed) j rest cs (rw (e) at size))
          | inr more ↦
              let (j, rest, e) = next_place (k ∷ typed) junk size less in
              let stored : (c == backspace && not (suc (length typed) == 0)) ≡ false =
                rw (key) refl in
              rw
                (
                  room,
                  key,
                  more,
                  e,
                  type_pass_key c cs (suc (length typed)) _ _ _ less
                      (press_stored c (k ∷ typed) j rest stored more),
                )
                (type_pass_lem cs (c ∷ k ∷ typed) rest (grown c (k ∷ typed) j rest (rw (e) at size))
                  less)
        ]
      ]
]

-- `getPass` does what an editor of one line does: while the line goes on it reads keys, and when the
-- line has ended it leaves the line in the array, with a 0 behind it, and reads no key more. The
-- array has 20 bytes, before and after.
pub get_pass-edit :
    (keys : List ℕ) (pass : Bytes)
    → length pass ≡ max_word
    → (edit [] keys ≡ none → get_pass keys pass ≡ some none)
      × ((line : Bytes) (rest : List ℕ)
          → edit [] keys ≡ some (line, rest)
          → (junk : Bytes) × (get_pass keys pass ≡ some (some (line ++ 0 ∷ junk, rest)))
            × (length (line ++ 0 ∷ junk) ≡ max_word))
unfolding get_pass in_order
get_pass-edit keys pass size =
    let done : Finish (edit [] keys) (type_pass keys 0 pass) =
      type_pass_lem keys [] pass size (omega arith) in
    (
      (λ going.
          let (i, pass', less, e) = subst (λ o. Finish o (type_pass keys 0 pass)) going done in
          rw (e, ltb-true i max_word less) refl),
      (λ line rest ended.
          let (pass', junk, e, cut, size') =
            subst (λ o. Finish o (type_pass keys 0 pass)) ended done in
          let written : assign pass' (max_word - 1) 0 ≡ some (line ++ 0 ∷ junk) =
            assign-set pass' (max_word - 1) 0 (omega (arith, size')) ∙ ap some cut in
          let same : length (line ++ 0 ∷ junk) ≡ max_word =
            ap length (sym cut) ∙ length-set pass' (max_word - 1) 0 ∙ size' in
          (junk, rw (e, written) refl, same)),
    )
