-- ===== src/ChildServer/State.antt =====
-- The `Client` of serverStructs.h, the globals of a lobby's process, and the calls through which
-- childServer.c reaches the rest of the program.
use snuffin.Marshalling.Tags.{boolean_tag}
use snuffin.Marshalling.Message.{boolean, marshalling}
use snuffin.ComWrapper.Reader.{Reader}
use snuffin.Com.Transport.{Incoming}
use snuffin.Marshalling.Decode.{Frame}
use snuffin.Common.Int.{pos, pos_part, ℤ}
use snuffin.Structs.{StreamData}
use snuffin.Game.Board.{GameBoard}
use snuffin.Log.{Log}
use snuffin.Common.{
  ◌∷◌, take, ◌++◌, none, length, ltb, [], if◌then◌else◌, some, Bool, get_elem?, ◌>>=◌, set, ℕ, List,
  Option,
}
use snuffin.Libc.Print.{Bytes}

-- What the server expects of a client.
abbrev pub user : ℕ
user = 1

abbrev pub password : ℕ
password = 2

abbrev pub movement : ℕ
movement = 3

abbrev pub ready_to_play : ℕ
ready_to_play = 4

abbrev pub new_password : ℕ
new_password = 5

-- The states of a client.
abbrev pub logging : ℕ
logging = 0

abbrev pub waiting : ℕ
waiting = 1

abbrev pub ready_play : ℕ
ready_play = 2

abbrev pub playing : ℕ
playing = 3

abbrev pub loose : ℕ
loose = 4

-- `name` and `score` are not set when a client is made: until then a use is undefined. A connection
-- is its file descriptor.
pub record Client : Type 0 where
  pub name : Option Bytes
  pub state : ℕ
  pub expecting : ℕ
  pub score : Option ℤ
  pub con : ℕ

-- The globals of the process, the messages sent so far with their connections, and what the data
-- base holds. A null pointer in `clients` is `none`; no two of them point to the same client.
pub record Server (D : Type 0) : Type 0 where
  pub clients : List (Option Client)
  pub start_game : ℕ
  pub game_board : Option GameBoard
  pub reader : Reader
  pub sent : List (ℕ × Bytes)
  pub log : Log
  pub db : D

-- The requests of dbManager.c, which return when the process of the data base has answered.
pub record Db (D : Type 0) : Type 0 where
  pub exist_user : Bytes → D → Option (ℤ × D)
  pub valid_password : Bytes → Bytes → D → Option (ℤ × D)
  pub get_high_score : Bytes → D → Option (ℤ × D)
  pub set_high_score : Bytes → ℤ → D → Option D
  pub create_user : Bytes → Bytes → D → Option (ℤ × D)

-- What is uninitialised on entry to `resolveRequest`: the buffer for the message, the arrays on the
-- stack, and fresh memory of each size; and what the connection would bring.
pub record Memory : Type 0 where
  pub buffer : Bytes
  pub frame : Frame
  pub fresh : ℕ → Bytes
  pub incoming : Incoming

-- `*clients[n]`
unfoldable pub client_at : List (Option Client) → ℕ → Option Client
client_at cs n = get_elem? cs n >>= λ c. c

abbrev pub put_client : {D : Type 0} → ℕ → Option Client → Server D → Server D
put_client n c s = record s { clients = set s.clients n c }

abbrev pub with_log : {D : Type 0} → (Log → Option Log) → Server D → Option (Server D)
with_log f s = f s.log >>= λ l. some (record s { log = l })

-- `sendData` takes `size` bytes. How the transport delivers them, and when it ends the process, is
-- not part of this model.
unfoldable pub send_data : {D : Type 0} → ℕ → StreamData → Server D → Option (Server D)
send_data con d s = do
  bytes ← d.bytes
  let n = pos_part d.size
  if ltb (length bytes) n
      then none
      else some (record s { sent = s.sent ++ (con, take n bytes) ∷ [] })

-- The two messages TRUE and FALSE.
unfoldable pub send_boolean : {D : Type 0} → ℕ → Bool → Server D → Option (Server D)
unfolding send_data
send_boolean con value s = do
  d ← marshalling [] (boolean (pos (if value then 1 else 0))) boolean_tag
  send_data con d s
