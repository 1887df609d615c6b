-- ===== src/ChildServer/Notify.antt =====
-- The messages of childServer.c to the clients about each other.
use snuffin.Marshalling.Tags.{string_tag, player_tag}
use snuffin.Common.Int.{pos}
use snuffin.Marshalling.Message.{text, player, marshalling}
use snuffin.Log.{info_level, log_msg, send_log}
use snuffin.Libc.Buffer.{c_string, sprintf}
use snuffin.Structs.{Player, StreamData}
use snuffin.Common.{
  none, true, ◌&&◌, [], ◌++◌, replicate, ◌==◌, not, codes, ◌+◌, ◌∷◌, if◌then◌else◌, false, some,
  Bool, ◌>>=◌, Option, List, ℕ,
}
use snuffin.ChildServer.State.{
  movement, playing, ready_play, put_client, send_data, logging, send_boolean, with_log, client_at,
  Client, Server,
}
use snuffin.Libc.Print.{show_int, Bytes}

unfoldable pub create_player_struct : Client → ℕ → Option Player
create_player_struct c number = do
  name ← c.name
  score ← c.score
  let ready = if c.state == ready_play then 1 else 0
  some (record { name = name; num = pos number; score = score; ready = pos ready })

-- `clients[i] != NULL && clients[i]->state != LOGGING && clients[i] != c`, for client number i.
unfoldable pub hears_of : ℕ → ℕ → Option Client → Bool
hears_of n_player i none = false
hears_of n_player i (some c) = not (c.state == logging) && not (i == n_player)

-- `Notifying %s about %s`, into the array `aux` of 128 bytes, which all rounds share.
unfoldable pub notify_text : Bytes → Client → Client → Option Bytes
notify_text aux new c = do
  new_name ← new.name
  new_text ← c_string new_name
  name ← c.name
  old_text ← c_string name
  sprintf aux (codes "Notifying " ++ (new_text ++ (codes " about " ++ old_text)))

-- The number of the client that leaves, as a string, into ten bytes.
unfoldable pub leaving_message : ℕ → Option StreamData
leaving_message n_client = do
  aux ← sprintf (replicate 10 0) (show_int (pos n_client))
  marshalling [] (text aux) string_tag

module _ {D : Type 0} where
  -- The loop over the clients, of which `cs` are left, from number i on.
  unfoldable pub notify_from :
      ℕ → StreamData → ℕ → List (Option Client) → Server D → Option (Server D)
  unfolding hears_of
  notify_from n_player d i [] s = some s
  notify_from n_player d i (none ∷ cs) s = notify_from n_player d (i + 1) cs s
  notify_from n_player d i (some c ∷ cs) s =
      (if hears_of n_player i (some c) then send_data c.con d s else some s) >>= λ s.
      notify_from n_player d (i + 1) cs s

  unfoldable pub notify_new_player : ℕ → Server D → Option (Server D)
  unfolding create_player_struct notify_from
  notify_new_player n_player s = do
    c ← client_at s.clients n_player
    p ← create_player_struct c n_player
    d ← marshalling [] (player p) player_tag
    notify_from n_player d 0 s.clients s

  unfoldable pub tell_about : Client → ℕ → Client → Bytes → Server D → Option (Bytes × Server D)
  unfolding notify_text create_player_struct
  tell_about new i c aux s = do
    aux ← notify_text aux new c
    line ← c_string aux
    s ← with_log (send_log line info_level) s
    p ← create_player_struct c i
    d ← marshalling [] (player p) player_tag
    s ← send_data new.con d s
    some (aux, s)

  unfoldable pub notify_existing_from :
      Client → ℕ → List (Option Client) → Bytes → Server D → Option (Server D)
  unfolding tell_about
  notify_existing_from new i [] aux s = some s
  notify_existing_from new i (none ∷ cs) aux s = notify_existing_from new (i + 1) cs aux s
  notify_existing_from new i (some c ∷ cs) aux s = do
    (aux, s) ← tell_about new i c aux s
    notify_existing_from new (i + 1) cs aux s

  unfoldable pub notify_existing_players : ℕ → Server D → Option (Server D)
  unfolding notify_existing_from
  notify_existing_players n_player s = do
    c ← client_at s.clients n_player
    notify_existing_from c 0 s.clients (replicate 128 0) s

  unfoldable pub notify_leaving : ℕ → ℕ → List (Option Client) → Server D → Option (Server D)
  unfolding leaving_message
  notify_leaving n_client i [] s = some s
  notify_leaving n_client i (none ∷ cs) s = notify_leaving n_client (i + 1) cs s
  notify_leaving n_client i (some c ∷ cs) s =
      (if not (i == n_client)
        then (leaving_message n_client >>= λ d. send_data c.con d s)
        else some s)
      >>= λ s. notify_leaving n_client (i + 1) cs s

  -- The name is freed as well; a client that has none yet has a wild pointer there.
  unfoldable pub disconnect : ℕ → Server D → Option (Server D)
  unfolding notify_leaving
  disconnect n_client s = do
    s ← with_log (log_msg "Player disconnecting") s
    s ← notify_leaving n_client 0 s.clients s
    c ← client_at s.clients n_client
    freed ← c.name
    some (put_client n_client none s)

  unfoldable pub start_from : List (Option Client) → Server D → ℕ → Option (Server D)
  start_from [] s i = some s
  start_from (none ∷ cs) s i = start_from cs s (i + 1)
  start_from (some c ∷ cs) s i =
      send_boolean c.con true
        (put_client i (some (record c { state = playing; expecting = movement })) s)
      >>= λ s. start_from cs s (i + 1)

  unfoldable pub send_game_start : Server D → Option (Server D)
  unfolding start_from
  send_game_start s = do
    s ← with_log (log_msg "Notifying players about game start") s
    start_from s.clients s 0
