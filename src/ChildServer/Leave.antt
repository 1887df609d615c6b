-- ===== src/ChildServer/Leave.antt =====
-- What `disconnect` and `playerLost` do to the lobby.
use snuffin.Game.Update.{update_player-alive}
use snuffin.Game.Cells.{peek}
use snuffin.ChildServer.Logging.{log_msg_lem, send_log_lem}
use snuffin.Structs.{Point}
use snuffin.Log.{log_msg, info_level, Log}
use snuffin.ChildServer.Match.{player_lost}
use snuffin.Game.Tick.{update_player}
use snuffin.Common.Int.{◌+ℤ◌, pos}
use snuffin.Marshalling.Tags.{sep, string_tag}
use snuffin.Game.Board.{tail_char, point_of, alive, GameBoard, max_players}
use snuffin.Libc.Buffer.{c_string, memcpy, store, calloc, sprintf}
use snuffin.Marshalling.Places.{num_places}
use snuffin.Marshalling.Encode.{marsh_string}
use snuffin.ChildServer.State.{send_data, client_at, Server, Client}
use snuffin.Marshalling.Message.{marshalling}
use snuffin.Libc.Print.{show_int, Bytes}
use snuffin.Common.{
  append_assoc, inr, codes, get_elem?, inl, set, Bool-cases, ◌>>=◌, append-nil, ◌++◌, ◌^◌, refl,
  zero, arith, suc, ◌<◌, [], ◌==◌, if◌then◌else◌, none, some, ◌+◌, ◌≡◌, ◌∷◌, Option, List, ℕ,
}
use snuffin.ChildServer.Notify.{notify_leaving, leaving_message, disconnect}

-- The message of a client that leaves goes to every other client.
unfoldable pub to_others : ℕ → Bytes → ℕ → List (Option Client) → List (ℕ × Bytes)
to_others n bytes i [] = []
to_others n bytes i (none ∷ cs) = to_others n bytes (i + 1) cs
to_others n bytes i (some c ∷ cs) =
    let rest = to_others n bytes (i + 1) cs in if i == n then rest else (c.con, bytes) ∷ rest

-- The number of the client, as a string of one byte.
abbrev pub leaving : ℕ → Bytes
leaving n = string_tag ∷ b'1' ∷ sep ∷ (b'0' + n) ∷ 0 ∷ []

leaving_message_lem :
    (n : ℕ)
    → n < max_players
    → leaving_message n ≡ some (record { bytes = some (leaving n); size = pos 5 })
unfolding leaving_message marshalling marsh_string num_places sprintf calloc show_int store memcpy
    c_string
leaving_message_lem zero h = refl
leaving_message_lem (suc zero) h = refl
leaving_message_lem (suc (suc zero)) h = refl
leaving_message_lem (suc (suc (suc zero))) h = refl
leaving_message_lem (suc (suc (suc (suc n)))) h = absurd (omega (arith, h))

send_leaving :
    {D : Type 0} (con n : ℕ) (s : Server D)
    → send_data con (record { bytes = some (leaving n); size = pos 5 }) s
      ≡ some (record s { sent = s.sent ++ (con, leaving n) ∷ [] })
unfolding send_data
send_leaving con n s = refl

notify_leaving_lem :
    {D : Type 0} (n i : ℕ) (cs : List (Option Client)) (s : Server D)
    → n < max_players
    → notify_leaving n i cs s ≡ some (record s { sent = s.sent ++ to_others n (leaving n) i cs })
unfolding notify_leaving to_others
notify_leaving_lem n i [] s h = rw (append-nil s.sent) refl
notify_leaving_lem n i (none ∷ cs) s h = notify_leaving_lem n (i + 1) cs s h
notify_leaving_lem {D} n i (some c ∷ cs) s h = elim (Bool-cases (i == n)) [
  | inl self ↦ rw (self) (notify_leaving_lem n (i + 1) cs s h)
  | inr other ↦
      let s1 : Server D = record s { sent = s.sent ++ (c.con, leaving n) ∷ [] } in
      let ih = notify_leaving_lem n (i + 1) cs s1 h in
      let ih' =
        (rw (append_assoc s.sent ((c.con, leaving n) ∷ []) (to_others n (leaving n) (i + 1) cs)) at
          ih) in
      rw (other, leaving_message_lem n h, send_leaving c.con n s) ih'
]

-- `disconnect` tells every other client that is there which client leaves, and frees its place and
-- no other. But a client whose name is not set yet cannot be taken out: a wild pointer is freed. The
-- process number has at most seven digits.
pub disconnect_lem :
    {D : Type 0} (n : ℕ) (c : Client) (s : Server D)
    → client_at s.clients n ≡ some c
    → n < max_players
    → s.log.pid < 10 ^ 7
    → (log : Log) × (disconnect n s ≡ (
        c.name >>= λ freed. some (record s {
          clients = set s.clients n none;
          sent = s.sent ++ to_others n (leaving n) 0 s.clients;
          log = log;
        })))
unfolding disconnect
disconnect_lem {D} n c s here h pid =
    let (log, told, _) = send_log_lem (codes "Player disconnecting") info_level s.log pid in
    let told' : log_msg "Player disconnecting" s.log ≡ some log =
      log_msg_lem "Player disconnecting" s.log told in
    let s1 : Server D = record s { log = log } in
    let notified = notify_leaving_lem n 0 s.clients s1 h in (log, rw (told', notified, here) refl)

-- A snake whose client has left is still on the board; when it is about to hit a trail, `playerLost`
-- follows the null pointer in its place.
pub update_player-gone :
    {D : Type 0} (b : GameBoard) (i : ℕ) (s : Server D) (p d : Point)
    → get_elem? b.p_def i ≡ some alive
    → point_of b.p_pos i ≡ some p
    → point_of b.p_dir i ≡ some d
    → peek b.b_b (p.y +ℤ d.y) (p.x +ℤ d.x) ≡ some tail_char
    → client_at s.clients i ≡ none
    → update_player player_lost i b s ≡ none
unfolding update_player player_lost
update_player-gone b i s p d living here dir ahead gone =
    rw (update_player-alive player_lost b i s living, here, dir, ahead, gone) refl
