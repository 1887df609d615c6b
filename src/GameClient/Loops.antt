-- ===== src/GameClient/Loops.antt =====
-- The loops of client.c that take the server's messages: `prepareLobby` and `startGame`.
use snuffin.GameClient.Screen.{print_board}
use snuffin.ComWrapper.Reader.{read_data}
use snuffin.Com.Transport.{Incoming}
use snuffin.GameClient.Lobby.{lobby_message, Lobby}
use snuffin.Libc.Print.{Bytes}
use snuffin.Marshalling.Message.{unmarshalling, board, boolean, Object}
use snuffin.Marshalling.Decode.{Frame}
use snuffin.Common.Int.{eqb_ℤ, pos, ℤ}
use snuffin.GameClient.Dialogue.{Talk}
use snuffin.Common.{◌∷◌, [], ◌++◌, codes, none, some, if◌then◌else◌, ◌>>=◌, Option, List}

-- The globals, the table of the lobby, and the boards on the screen.
pub record Session : Type 0 where
  pub talk : Talk
  pub lobby : Lobby
  pub screen : List Bytes

-- What `readData` and `unmarshalling` bring; `type` is what the variable holds before.
unfoldable pub next_message : Frame → Incoming → ℤ → Session → Option ((ℤ × Object) × Session)
next_message frame incoming type s = do
  got ← read_data s.talk.reader incoming s.talk.buffer
  message ← unmarshalling frame (some (record { bytes = some got.bytes; size = pos got.size })) type
  let talk : Talk = record s.talk { reader = got.reader; buffer = got.bytes }
  some (message, record s { talk = talk })

-- Each entry a round of the loop; `some none` while it goes on. What `printLobby` draws is left out
-- here.
unfoldable pub prepare_rounds : List (Frame × Incoming) → ℤ → Session → Option (Option Session)
unfolding next_message
prepare_rounds [] type s = some none
prepare_rounds ((frame, incoming) ∷ rounds) type s = do
  (message, s) ← next_message frame incoming type s
  lobby ← lobby_message message s.lobby
  let s : Session = record s { lobby = lobby }
  let rest = prepare_rounds rounds message.0 s
  if eqb_ℤ lobby.game_start (pos 0) then rest else some (some s)

-- `gameStart` is set to FALSE first.
unfoldable pub prepare_lobby : List (Frame × Incoming) → ℤ → Session → Option (Option Session)
unfolding prepare_rounds
prepare_lobby rounds type s =
    let lobby : Lobby = record s.lobby { game_start = pos 0 } in
    prepare_rounds rounds type (record s { lobby = lobby })

-- A board, or the result; a pointer to something else than the type says is read as what it is not.
unfoldable pub drawn : Object → Option Bytes
drawn (board b) = print_board b
drawn other = none

unfoldable pub result_of : Object → Option ℤ
result_of (boolean won) = some won
result_of other = none

-- The result, once it has come.
unfoldable pub start_game : List (Frame × Incoming) → ℤ → Session → Option (Option (ℤ × Session))
unfolding next_message drawn result_of
start_game [] type s = some none
start_game ((frame, incoming) ∷ rounds) type s = do
  (message, s) ← next_message frame incoming type s
  let (type, struc) = message
  let shown =
      drawn struc >>= λ out. start_game rounds type (record s { screen = s.screen ++ out ∷ [] })
  let finished = result_of struc >>= λ won. some (some (won, s))
  let rest = start_game rounds type s
  if eqb_ℤ type (pos 5) then shown else if eqb_ℤ type (pos 4) then finished else rest

unfoldable pub game_over : ℤ → Bytes
game_over won =
    (if eqb_ℤ won (pos 0) then codes "Has perdido.\n" else codes "Felicitaciones, ganaste!\n")
    ++ codes "Gracias por jugar ;)\n"
