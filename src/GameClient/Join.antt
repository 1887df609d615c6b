-- ===== src/GameClient/Join.antt =====
-- `game` of client.c: the player's program from the choice of a lobby to the result. Reading the
-- configuration and connecting to the super server are left out.
use snuffin.Com.Socket.{Outcome}
use snuffin.Com.Socket.{Call, Answers, connect_to_peer, gives, exits}
use Prim.Native.String.{String}
use snuffin.Marshalling.Tags.{server_id_tag}
use snuffin.ComWrapper.Reader.{read_data}
use snuffin.Marshalling.Message.{server_id, marshalling}
use snuffin.Libc.Print.{Bytes}
use snuffin.Common.{none, ◌∷◌, ◌++◌, some, [], ◌>>=◌, List, Option}
use snuffin.GameClient.Dialogue.{get_information, Talk}
use snuffin.GameClient.Loops.{game_over, start_game, prepare_lobby, Session}
use snuffin.Com.Transport.{Incoming}
use snuffin.Marshalling.Decode.{unmarsh_server_id, Frame}
use snuffin.Common.Int.{ℤ}

unfoldable pub ask_lobby : ℤ → Talk → Option Talk
ask_lobby value t = do
  d ← marshalling [] (server_id value) server_id_tag
  some (record t { sent = t.sent ++ d ∷ [] })

-- The address of the lobby's process; `s` is what the variable holds before.
unfoldable pub hear_address : Frame → Incoming → ℤ → Talk → Option (ℤ × Talk)
hear_address frame incoming s t = do
  got ← read_data t.reader incoming t.buffer
  (rta, s) ← unmarsh_server_id frame got.bytes s
  some (s, record t { reader = got.reader; buffer = got.bytes })

-- What comes from outside: the answer with the address, what the system answers to `connectToPeer`,
-- the input and the answers of the dialogue, and the messages of the lobby and of the match; `host`
-- is the global `address`, and `unset` is what the variables hold.
pub record GameInput : Type 0 where
  pub frame : Frame
  pub address : Incoming
  pub host : Bytes
  pub answers : Answers
  pub input : Bytes
  pub known : Incoming
  pub tries : List Incoming
  pub lobby_rounds : List (Frame × Incoming)
  pub match_rounds : List (Frame × Incoming)
  pub unset : ℤ

abbrev pub shown : Bytes → Session → Session
shown out s = record s { screen = s.screen ++ out ∷ [] }

-- A loop still goes on; or the process has ended, with a message of `perror`; or the match has a
-- result, and it is known what was seen.
pub data Played : Type 0 where
  goes_on : Played
  ended : String → Played
  played : ℤ → Session → Played

-- What comes after the connection to the lobby's process.
unfoldable pub play_game : GameInput → Session → Option Played
play_game o s = do
  entered ← get_information o.input o.known o.tries s.talk
  elim entered [
    | none ↦ some goes_on
    | some t ↦ do
      in_match ← prepare_lobby o.lobby_rounds o.unset (record s { talk = t })
      elim in_match [
        | none ↦ some goes_on
        | some s ↦ do
          result ← start_game o.match_rounds o.unset s
          elim result [
            | none ↦ some goes_on
            | some (won, s) ↦ some (played won (shown (game_over won) s))
          ]
      ]
  ]

unfoldable pub enter_game : Outcome → GameInput → Session → Option Played
unfolding play_game
enter_game (exits message) o s = some (ended message)
enter_game (gives fd) o s = play_game o s

-- The result, and the calls by which the lobby's process was connected to. With comSocket.c: a
-- connection that `connectToPeer` returns has a descriptor, so its loop has one round.
unfoldable pub game : ℤ → GameInput → Session → Option (List Call × Played)
unfolding ask_lobby hear_address enter_game
game value o s = do
  t ← ask_lobby value s.talk
  (address, t) ← hear_address o.frame o.address o.unset t
  (outcome, calls) ← connect_to_peer o.answers o.host address
  result ← enter_game outcome o (record s { talk = t })
  some (calls, result)
