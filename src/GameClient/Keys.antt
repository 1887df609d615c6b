-- ===== src/GameClient/Keys.antt =====
-- `listenToPress` of client.c: what a key does.
use snuffin.GameClient.Lobby.{change_ready}
use snuffin.Libc.Print.{Bytes}
use snuffin.Libc.Buffer.{c_string}
use snuffin.Marshalling.Tags.{boolean_tag, point_tag}
use snuffin.Marshalling.Message.{boolean, point, marshalling}
use snuffin.Common.Int.{eqb_ℤ, negsuc, pos}
use snuffin.Structs.{Player, StreamData, Point}
use snuffin.Common.{
  none, true, ◌&&◌, ◌||◌, ◌>>=◌, ◌==◌, ◌∷◌, [], not, some, if◌then◌else◌, Option, ◌++◌, false, ℕ,
  List, Bool,
}

abbrev pub up_arrow : ℕ
up_arrow = b'A'

abbrev pub down_arrow : ℕ
down_arrow = b'B'

abbrev pub right_arrow : ℕ
right_arrow = b'C'

abbrev pub left_arrow : ℕ
left_arrow = b'D'

abbrev pub enter : ℕ
enter = 10

-- The globals `ready`, `players` and `myName`, the local variables `p` and `aux`, and the messages
-- sent so far. What is drawn on the screen is left out.
pub record Keys : Type 0 where
  pub is_ready : Bool
  pub players : List (Option Player)
  pub my_name : Bytes
  pub p : Point
  pub aux : Point
  pub sent : List StreamData

abbrev pub send : StreamData → Keys → Keys
send d k = record k { sent = k.sent ++ d ∷ [] }

-- The player says whether it is ready: the message, the flag and the table.
unfoldable pub tell_ready : Bool → Keys → Option Keys
tell_ready value k = do
  name ← c_string k.my_name
  let state = pos (if value then 1 else 0)
  d ← marshalling [] (boolean state) boolean_tag
  players ← change_ready name state k.players
  some (record k { is_ready = value; players = players; sent = k.sent ++ d ∷ [] })

-- Before the match. The program ends on the key X if the player is not ready: `none` of the inner
-- option.
unfoldable pub press_lobby : ℕ → Keys → Option (Option Keys)
unfolding tell_ready
press_lobby pressed k =
    let is_x = pressed == b'X' || pressed == b'x' in
    if pressed == enter && not k.is_ready
    then (tell_ready true k >>= λ k. some (some k))
    else if is_x && k.is_ready
    then (tell_ready false k >>= λ k. some (some k))
    else if is_x && not k.is_ready
    then some none
    else some (some k)

-- The direction of an arrow; another key leaves it.
unfoldable pub turn : ℕ → Point → Point
turn pressed p =
    if pressed == down_arrow
    then record { x = pos 0; y = pos 1 }
    else if pressed == up_arrow
    then record { x = pos 0; y = negsuc 0 }
    else if pressed == left_arrow
    then record { x = negsuc 0; y = pos 0 }
    else if pressed == right_arrow
    then record { x = pos 1; y = pos 0 }
    else p

unfoldable pub send_point : Point → Keys → Option Keys
send_point p k = marshalling [] (point p) point_tag >>= λ d. some (send d k)

-- In the match: a new direction is sent once.
unfoldable pub press_match : ℕ → Keys → Option Keys
unfolding turn send_point
press_match pressed k =
    let p = turn pressed k.p in
    let moved : Keys = record k { p = p; aux = p } in
    let changed = not (eqb_ℤ k.aux.x p.x) || not (eqb_ℤ k.aux.y p.y) in
    let moving = not (eqb_ℤ p.x (pos 0)) || not (eqb_ℤ p.y (pos 0)) in
    if changed && moving
    then send_point p moved
    else if changed
    then some moved
    else some (record k { p = p })

unfoldable pub press_all : List ℕ → Keys → Option Keys
unfolding press_match
press_all [] k = some k
press_all (c ∷ cs) k = press_match c k >>= λ k. press_all cs k
