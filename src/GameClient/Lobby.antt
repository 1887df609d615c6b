-- ===== src/GameClient/Lobby.antt =====
-- The table of players of client.c, and the messages that change it in `prepareLobby`.
use snuffin.Libc.Strtol.{is_digit, read_int}
use snuffin.Game.Board.{assign}
use snuffin.Marshalling.Message.{text, player, Object}
use snuffin.Libc.Buffer.{same_bytes, memcpy, c_string}
use snuffin.Libc.Print.{Bytes}
use snuffin.Structs.{Player}
use snuffin.Common.{
  ◌&&◌, leb, ◌==◌, true, false, ◌||◌, ◌++◌, replicate, [], get_elem?, ◌+◌, if◌then◌else◌, none,
  Bool, ◌>>=◌, some, ◌∷◌, Option, ℕ, List,
}
use snuffin.Common.Int.{add_int, pos, pos_part, eqb_ℤ, negsuc, ℤ}

abbrev pub max_word : ℕ
max_word = 20

-- The globals; a null pointer in `players` is `none`.
pub record Lobby : Type 0 where
  pub players : List (Option Player)
  pub n_players : ℤ
  pub game_start : ℤ

-- `!strcmp(players[i]->name, name)`, the name as a string.
unfoldable pub has_name : Bytes → Player → Option Bool
has_name name p = c_string p.name >>= λ text. some (same_bytes text name)

-- The loop of `belongs`; `i` is the number of the first of `ps`.
unfoldable pub belongs_from : Bytes → ℕ → List (Option Player) → Option ℤ
unfolding has_name
belongs_from name i [] = some (negsuc 0)
belongs_from name i (none ∷ ps) = belongs_from name (i + 1) ps
belongs_from name i (some p ∷ ps) = has_name name p >>= λ same.
    (let rest = belongs_from name (i + 1) ps in if same then some (pos i) else rest)

unfoldable pub belongs : Player → List (Option Player) → Option ℤ
unfolding belongs_from
belongs new ps = c_string new.name >>= λ name. belongs_from name 0 ps

-- The first player with that name.
unfoldable pub change_ready : Bytes → ℤ → List (Option Player) → Option (List (Option Player))
unfolding has_name
change_ready my_name state [] = some []
change_ready my_name state (none ∷ ps) = change_ready my_name state ps >>= λ ps. some (none ∷ ps)
change_ready my_name state (some p ∷ ps) = has_name my_name p >>= λ same.
    (let rest = (change_ready my_name state ps >>= λ ps. some (some p ∷ ps)) in
      if same then some (some (record p { ready = state }) ∷ ps) else rest)

-- `players[pos]`: a negative index is out of range.
unfoldable pub place : ℤ → Option ℕ
place (pos n) = some n
place (negsuc n) = none

-- A new player, with a copy of the name in an array of its own.
unfoldable pub add_player : Player → Lobby → Option Lobby
add_player new s = do
  name ← c_string new.name
  copied ← memcpy (replicate max_word 0) (name ++ 0 ∷ [])
  n ← place new.num
  players ← assign s.players n (some (record new { name = copied }))
  some (record s { players = players })

unfoldable pub change_player : Player → ℤ → Lobby → Option Lobby
change_player new aux s = do
  old ← get_elem? s.players (pos_part aux) >>= λ p. p
  players ← assign s.players (pos_part aux) (some (record old { ready = new.ready }))
  some (record s { players = players })

unfoldable pub take_player : Player → Lobby → Option Lobby
unfolding belongs add_player change_player
take_player new s = do
  aux ← belongs new s.players
  if eqb_ℤ aux (negsuc 0) then add_player new s else change_player new aux s

-- The last player with that number; `index` is not set before one is found.
unfoldable pub find_leaving : ℤ → ℕ → List (Option Player) → Option ℕ → Option ℕ
find_leaving leaving i [] index = index
find_leaving leaving i (none ∷ ps) index = find_leaving leaving (i + 1) ps index
find_leaving leaving i (some p ∷ ps) index =
    find_leaving leaving (i + 1) ps (if eqb_ℤ p.num leaving then some i else index)

unfoldable pub player_left : ℤ → Lobby → Option Lobby
unfolding find_leaving
player_left leaving s = do
  index ← find_leaving leaving 0 s.players none
  players ← assign s.players index none
  n ← add_int s.n_players (negsuc 0)
  some (record s { players = players; n_players = n })

-- What `sscanf` with `%d` sets: the number in front, behind spaces; without one the variable stays
-- unset.
unfoldable pub has_number : Bytes → Bool
has_number [] = false
has_number (c ∷ []) = is_digit c
has_number (c ∷ d ∷ s) =
    let rest = has_number (d ∷ s) in
    if is_digit c
    then true
    else if c == b'-' || c == b'+'
    then is_digit d
    else if c == b' ' || (leb 9 c && leb c 13)
    then rest
    else false

unfoldable pub leaving_number : Bytes → Option ℤ
unfolding has_number
leaving_number s = if has_number s then read_int s else none

-- The branches of `prepareLobby`, by the type that `unmarshalling` has set. A pointer to something
-- else than the type says is read as what it is not: `none`.
unfoldable pub lobby_message : ℤ × Object → Lobby → Option Lobby
unfolding take_player player_left leaving_number
lobby_message (type, player p) s =
    if eqb_ℤ type (pos 2)
    then take_player p s
    else if eqb_ℤ type (pos 4)
    then some (record s { game_start = pos 1 })
    else if eqb_ℤ type (pos 3)
    then none
    else some s
lobby_message (type, text t) s =
    if eqb_ℤ type (pos 3)
    then (leaving_number t >>= λ n. player_left n s)
    else if eqb_ℤ type (pos 4)
    then some (record s { game_start = pos 1 })
    else if eqb_ℤ type (pos 2)
    then none
    else some s
lobby_message (type, struc) s =
    if eqb_ℤ type (pos 4)
    then some (record s { game_start = pos 1 })
    else if eqb_ℤ type (pos 2) || eqb_ℤ type (pos 3)
    then none
    else some s
