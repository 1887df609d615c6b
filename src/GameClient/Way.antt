-- ===== src/GameClient/Way.antt =====
-- The way of a player of client.c from the super server to the process of a lobby.
use snuffin.Com.Ports.{listen_connection-port, connect_to_peer-calls}
use snuffin.ComWrapper.Single.{read_data-single}
use snuffin.Com.Transport.{received}
use snuffin.SuperServer.Lobbies.{read_lobby, lobby_request}
use snuffin.Marshalling.Tags.{server_id_tag}
use snuffin.Marshalling.Message.{server_id, marshalling}
use snuffin.Marshalling.Fields.{show_int-Lacks_zero, Fits}
use snuffin.GameClient.Loops.{Session}
use snuffin.GameClient.Hear.{IsQuiet}
use snuffin.Com.Socket.{
  htons, connect_to_peer, bound_port, peer_port, gives, listen_connection, Call, Answers,
}
use snuffin.GameClient.Dialogue.{Talk}
use snuffin.Common.Int.{pos, ℤ}
use snuffin.Marshalling.Decode.{unmarsh_server_id, Frame}
use snuffin.GameClient.Join.{enter_game, Played, GameInput, game, ask_lobby, hear_address}
use snuffin.Common.{
  refl, sym, ◌∙◌, ap, arith, ◌∷◌, ◌++◌, ◌+◌, subst, length, >>=-eq-some, List, ◌^◌, ◌<◌, ◌≡◌, ℕ,
  some, [],
}
use mathlib.Core.Option.{some-injective}

-- The answer of the super server, the address m, is heard as m.
hear_address-lobby_request :
    (frame : Frame) (m room : ℕ) (unset : ℤ) (t : Talk)
    → m < 2 ^ 31
    → Fits (pos m) frame.num
    → length (lobby_request m) < room
    → IsQuiet room t
    → (t' : Talk) × (hear_address frame (received (lobby_request m ++ 0 ∷ [])) unset t
        ≡ some (pos m, t'))
unfolding hear_address
hear_address-lobby_request frame m room unset t small fits wide quiet =
    let (out, rest, read, bytes, size, none_left) =
      read_data-single t.reader (lobby_request m) t.buffer quiet.none_left
        (omega arith, show_int-Lacks_zero (pos m)) (omega (arith, wide, quiet.size)) in
    let heard : unmarsh_server_id frame out.bytes unset ≡ some (1, pos m) =
      ap (λ b. unmarsh_server_id frame b unset) bytes ∙ read_lobby m frame rest unset small fits in
    (record t { reader = out.reader; buffer = out.bytes }, rw (read, heard) refl)

ask_lobby-IsQuiet :
    (value : ℤ) (room : ℕ) (t : Talk) {t' : Talk}
    → ask_lobby value t ≡ some t'
    → IsQuiet room t
    → IsQuiet room t'
unfolding ask_lobby
ask_lobby-IsQuiet value room t e quiet =
    let (d, e1, e2) = >>=-eq-some (marshalling [] (server_id value) server_id_tag) _ e in
    subst (IsQuiet room) (some-injective _ _ e2)
      (record { none_left = quiet.none_left; size = quiet.size })

-- A player that gets the address of lobby i, as the super server sends it, connects to no other port
-- than the one that the process of that lobby listens to, whatever comes of it. The address arrives
-- whole and alone, no message was left, the buffer has room for it, the array `num` holds no digit
-- behind it, and it is an `int`.
pub game-peer_port :
    (value : ℤ) (n i room : ℕ) (a : Answers) (o : GameInput) (s : Session) {fd : ℤ}
    {listened calls : List Call} {p : Played} (port : ℕ)
    → listen_connection a (pos (n + i)) ≡ (gives fd, listened)
    → o.address ≡ received (lobby_request (n + i) ++ 0 ∷ [])
    → n + i < 2 ^ 31
    → Fits (pos (n + i)) o.frame.num
    → length (lobby_request (n + i)) < room
    → IsQuiet room s.talk
    → game value o s ≡ some (calls, p)
    → peer_port calls ≡ some port
    → bound_port listened ≡ some port
unfolding game
game-peer_port value n i room a o s {fd} {listened} {calls} {p} port listen_e address small fits
      wide quiet e called =
    let (t, e1, e2) = >>=-eq-some (ask_lobby value s.talk) _ e in
    let ((m, t1), e3, e4) = >>=-eq-some (hear_address o.frame o.address o.unset t) _ e2 in
    let ((outcome, cs), e5, e6) = >>=-eq-some (connect_to_peer o.answers o.host m) _ e4 in
    let (result, e7, e8) = >>=-eq-some (enter_game outcome o (record s { talk = t1 })) _ e6 in
    let quiet1 : IsQuiet room t = ask_lobby-IsQuiet value room s.talk e1 quiet in
    let (t2, heard) =
      hear_address-lobby_request o.frame (n + i) room o.unset t small fits wide quiet1 in
    let same_m : m ≡ pos (n + i) =
      ap (λ r. r.0)
        (some-injective _ _
          (sym e3 ∙ ap (λ r. hear_address o.frame r o.unset t) address ∙ heard)) in
    let same_calls : cs ≡ calls = ap (λ r. r.0) (some-injective _ _ e8) in
    let at_port : port ≡ htons m =
      connect_to_peer-calls o.answers o.host m port e5 (ap peer_port same_calls ∙ called) in
    listen_connection-port a (pos (n + i)) listen_e ∙ ap some (sym (at_port ∙ ap htons same_m))
