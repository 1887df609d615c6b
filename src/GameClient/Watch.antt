-- ===== src/GameClient/Watch.antt =====
-- `startGame` of client.c: a match as the player sees it.
use snuffin.GameClient.Hear.{bits-Lacks, unmarsh_boolean-flag, bits, IsQuiet}
use snuffin.Marshalling.Tags.{sep}
use snuffin.GameClient.Dialogue.{Talk}
use snuffin.GameClient.Render.{print_board_lem, rendered}
use snuffin.ChildServer.Start.{flag}
use snuffin.ComWrapper.Single.{read_data-single}
use snuffin.GameClient.Loops.{start_game, next_message, Session}
use snuffin.Com.Transport.{received, Incoming}
use snuffin.Libc.Buffer.{Lacks, c_string_lem}
use snuffin.Marshalling.Grid.Read.{unmarsh-marsh_board}
use snuffin.Marshalling.Grid.Write.{marsh_board_lem, board_text}
use snuffin.Marshalling.Fields.{show_int-Lacks_zero, Fits}
use snuffin.Marshalling.Grid.Shape.{cell_text-Lacks, cell_text, square, IsSquare}
use snuffin.Common.Int.{pos, ℤ}
use snuffin.Marshalling.Decode.{unmarsh_board, Frame}
use snuffin.Libc.Print.{show_int, Bytes}
use snuffin.Common.{
  All-append, ◌≢◌, append-nil, ◌∙◌, ap, sym, subst, if◌then◌else◌, map, All, ◌≤◌, Bool, length,
  refl, append_assoc, arith, [], ◌≡◌, ◌∷◌, ◌++◌, some, ◌<◌, List, ℕ,
}
use snuffin.Marshalling.Message.{boolean, Object, fresh_board, board, unmarshal_data, unmarshalling}

unmarshalling-board :
    (n : ℕ) (rows : List Bytes) (rest : Bytes) (frame : Frame) (size type : ℤ)
    → IsSquare n rows
    → n < 10000
    → Fits (pos n) frame.num
    → Fits (pos n) frame.num2
    → unmarshalling frame
        (some (record { bytes = some (board_text n rows ++ 0 ∷ rest); size = size }))
        type
      ≡ some (pos 5, board (square n rows))
unfolding unmarshalling unmarshal_data
unmarshalling-board n rows rest frame size type h small f1 f2 =
    let trip =
      unmarsh-marsh_board n rows (0 ∷ []) rest frame fresh_board h small (c_string_lem [] [] tt) f1
        f2 in
    let written =
      marsh_board_lem n rows (0 ∷ []) h (grind arith) (omega arith) (c_string_lem [] [] tt) in
    let whole : (board_text n rows ++ 0 ∷ []) ++ rest ≡ board_text n rows ++ 0 ∷ rest =
      append_assoc (board_text n rows) (0 ∷ []) rest in
    let read : unmarsh_board frame (board_text n rows ++ 0 ∷ rest) fresh_board
        ≡ some (1, square n rows) =
      (rw (written, whole) at trip) in
    rw (read) refl

unmarshalling-flag :
    (value : Bool) (rest : Bytes) (frame : Frame) (size type : ℤ)
    → unmarshalling frame
        (some (record { bytes = some (bits value ++ 0 ∷ rest); size = size }))
        type
      ≡ some (pos 4, boolean (pos (if value then 1 else 0)))
unfolding unmarshalling unmarshal_data
unmarshalling-flag value rest frame size type = rw (unmarsh_boolean-flag value (0 ∷ rest)) refl

next_message-single :
    (frame : Frame) (message : Bytes) (room : ℕ) (type : ℤ) (s : Session) {what : ℤ × Object}
    → IsQuiet room s.talk
    → Lacks 0 message
    → length message < room
    → ((rest : Bytes) (size : ℤ)
        → unmarshalling frame
            (some (record { bytes = some (message ++ 0 ∷ rest); size = size }))
            type
          ≡ some what)
    → (s' : Session) × (next_message frame (received (message ++ 0 ∷ [])) type s ≡ some (what, s'))
      × IsQuiet room s'.talk
      × (s'.screen ≡ s.screen)
unfolding next_message
next_message-single frame message room type s {what} idle lacks fits means =
    let (out, rest, read, bytes, size, none_left) =
      read_data-single s.talk.reader message s.talk.buffer idle.none_left lacks
        (subst (λ m. length message < m) (sym idle.size) fits) in
    let meant : unmarshalling frame (some (record { bytes = some out.bytes; size = pos out.size }))
          type
        ≡ some what =
      ap (λ b. unmarshalling frame (some (record { bytes = some b; size = pos out.size })) type)
        bytes
      ∙ means rest (pos out.size) in
    let talk : Talk = record s.talk { reader = out.reader; buffer = out.bytes } in
    (
      record s { talk = talk },
      rw (read, meant) refl,
      record { none_left = none_left; size = size ∙ idle.size },
      refl,
    )

-- A board of n rows that the player's process can take, with the uninitialised arrays that it meets.
pub record CanShow (n room : ℕ) (p : Frame × List Bytes) : Type 0 where
  pub whole : IsSquare n p.1
  pub fits : length (board_text n p.1) < room
  pub num : Fits (pos n) p.0.num
  pub num2 : Fits (pos n) p.0.num2

abbrev pub board_comes : ℕ → Frame × List Bytes → Frame × Incoming
board_comes n (frame, rows) = (frame, received (board_text n rows ++ 0 ∷ []))

sep_not_zero : sep ≢ 0
sep_not_zero = ground arith

board_text-Lacks : (n : ℕ) (rows : List Bytes) → IsSquare n rows → Lacks 0 (board_text n rows)
board_text-Lacks n rows h =
    let number : Lacks 0 (show_int (pos n)) = show_int-Lacks_zero (pos n) in
    let ended : Lacks 0 (show_int (pos n) ++ sep ∷ []) =
      All-append _ (show_int (pos n)) (sep ∷ []) number (sep_not_zero, tt) in
    (
      ground arith,
      All-append _ (show_int (pos n) ++ sep ∷ (show_int (pos n) ++ sep ∷ [])) (cell_text rows)
          (All-append _ (show_int (pos n)) (sep ∷ (show_int (pos n) ++ sep ∷ [])) number
            (sep_not_zero, ended))
          (cell_text-Lacks n rows h.1),
    )

-- A match as the player sees it: boards, and then TRUE or FALSE. `startGame` shows each board as it
-- stands, in their order, and returns with the result, whatever comes later. The boards are square,
-- all of the same size of at most 9999 rows, each message arrives whole and alone, the buffer has room
-- for it, no message was left, and the arrays `num` and `num2` hold no digit behind the numbers of a
-- board.
pub start_game-ends :
    (n room : ℕ) (boards : List (Frame × List Bytes)) (frame : Frame) (value : Bool)
    (later : List (Frame × Incoming)) (type : ℤ) (s : Session)
    → 0 < n
    → n < 10000
    → 3 ≤ room
    → IsQuiet room s.talk
    → All (CanShow n room) boards
    → (s' : Session) × (start_game
          (map (board_comes n) boards ++ (frame, received (flag value)) ∷ later)
          type
          s
        ≡ some (some (pos (if value then 1 else 0), s')))
      × (s'.screen ≡ s.screen ++ map (λ p. rendered n p.1) boards)
unfolding start_game
start_game-ends n room [] frame value later type s some_row small wide idle all =
    let (s1, got, idle1, same) =
      next_message-single frame (bits value) room type s idle (bits-Lacks value)
        (omega (arith, wide)) (λ rest size. unmarshalling-flag value rest frame size type) in
    (s1, rw (got) refl, same ∙ sym (append-nil s.screen))
start_game-ends n room ((f, rows) ∷ boards) frame value later type s some_row small wide idle all =
    let can = all.0 in
    let (s1, got, idle1, same) =
      next_message-single f (board_text n rows) room type s idle (board_text-Lacks n rows can.whole)
        can.fits
        (λ rest size.
          unmarshalling-board n rows rest f size type can.whole small can.num can.num2) in
    let s2 : Session = record s1 { screen = s1.screen ++ rendered n rows ∷ [] } in
    let idle2 : IsQuiet room s2.talk = record { none_left = idle1.none_left; size = idle1.size } in
    let (s', ended, screen) =
      start_game-ends n room boards frame value later (pos 5) s2 some_row small wide idle2 all.1 in
    (
      s',
      rw (got, print_board_lem n rows can.whole some_row) ended,
      screen
          ∙ ap (λ l. (l ++ rendered n rows ∷ []) ++ map (λ p. rendered n p.1) boards) same
          ∙ append_assoc s.screen (rendered n rows ∷ []) (map (λ p. rendered n p.1) boards),
    )
