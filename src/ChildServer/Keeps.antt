-- ===== src/ChildServer/Keeps.antt =====
-- The functions of childServer.c that only send and log leave the clients as they are.
use snuffin.Marshalling.Tags.{board_tag}
use snuffin.Marshalling.Message.{board, marshalling}
use snuffin.Common.Int.{pos}
use snuffin.Game.Board.{init_board, GameBoard}
use snuffin.ChildServer.Match.{load_players, send_board_from, start_board, send_board}
use snuffin.ChildServer.Requests.{change, answer}
use mathlib.Core.Option.{some-injective}
use snuffin.Libc.Print.{Bytes}
use snuffin.ChildServer.Start.{send_boolean_lem}
use snuffin.Structs.{Board, StreamData}
use snuffin.ChildServer.Notify.{
  notify_leaving, tell_about, notify_existing_players, notify_existing_from, disconnect,
  notify_new_player, notify_from,
}
use snuffin.Common.{
  sym, ap, ◌∙◌, >>=-eq-some, none, set, [], ◌+◌, ◌∷◌, arith, some, ◌≡◌, List, Bool, Option, ℕ,
}
use snuffin.Log.{log_msg, Log}
use snuffin.ChildServer.State.{
  put_client, client_at, Client, send_boolean, with_log, Server, send_data,
}

module _ {D : Type 0} where
  pub send_data-clients :
      (con : ℕ) (d : StreamData) (s : Server D) {t : Server D}
      → send_data con d s ≡ some t
      → t.clients ≡ s.clients
  unfolding send_data
  send_data-clients con d s e = ground arith

  pub send_boolean-clients :
      (con : ℕ) (value : Bool) (s : Server D) {t : Server D}
      → send_boolean con value s ≡ some t
      → t.clients ≡ s.clients
  send_boolean-clients con value s e = ground (arith, send_boolean_lem con value s)

  pub with_log-clients :
      (f : Log → Option Log) (s : Server D) {t : Server D}
      → with_log f s ≡ some t
      → t.clients ≡ s.clients
  with_log-clients f s e = ground arith

  notify_from-clients :
      (n : ℕ) (d : StreamData) (i : ℕ) (cs : List (Option Client)) (s : Server D) {t : Server D}
      → notify_from n d i cs s ≡ some t
      → t.clients ≡ s.clients
  unfolding notify_from
  notify_from-clients n d i [] s e = ground arith
  notify_from-clients n d i (none ∷ cs) s e = notify_from-clients n d (i + 1) cs s e
  notify_from-clients n d i (some c ∷ cs) s {t} e = grind (
    arith,
    send_data-clients c.con d s,
    λ (u : Server D). notify_from-clients n d (i + 1) cs u {t = t},
  )

  pub notify_new_player-clients :
      (n : ℕ) (s : Server D) {t : Server D} → notify_new_player n s ≡ some t → t.clients ≡ s.clients
  unfolding notify_new_player
  notify_new_player-clients n s {t} e = grind (arith, notify_from-clients)

  tell_about-clients :
      (new : Client) (i : ℕ) (c : Client) (aux : Bytes) (s : Server D) {b : Bytes} {t : Server D}
      → tell_about new i c aux s ≡ some (b, t)
      → t.clients ≡ s.clients
  unfolding tell_about
  tell_about-clients new i c aux s e = grind (arith, send_data-clients)

  notify_existing_from-clients :
      (new : Client) (i : ℕ) (cs : List (Option Client)) (aux : Bytes) (s : Server D) {t : Server D}
      → notify_existing_from new i cs aux s ≡ some t
      → t.clients ≡ s.clients
  unfolding notify_existing_from
  notify_existing_from-clients new i [] aux s e = ground arith
  notify_existing_from-clients new i (none ∷ cs) aux s e =
      notify_existing_from-clients new (i + 1) cs aux s e
  notify_existing_from-clients new i (some c ∷ cs) aux s {t} e =
      let ((b, u), e1, e2) =
        >>=-eq-some (tell_about new i c aux s) (λ (b, u). notify_existing_from new (i + 1) cs b u)
          e in
      notify_existing_from-clients new (i + 1) cs b u e2 ∙ tell_about-clients new i c aux s e1

  pub notify_existing_players-clients :
      (n : ℕ) (s : Server D) {t : Server D}
      → notify_existing_players n s ≡ some t
      → t.clients ≡ s.clients
  unfolding notify_existing_players
  notify_existing_players-clients n s e = grind (arith, notify_existing_from-clients)

  notify_leaving-clients :
      (n i : ℕ) (cs : List (Option Client)) (s : Server D) {t : Server D}
      → notify_leaving n i cs s ≡ some t
      → t.clients ≡ s.clients
  unfolding notify_leaving
  notify_leaving-clients n i [] s e = ground arith
  notify_leaving-clients n i (none ∷ cs) s e = notify_leaving-clients n (i + 1) cs s e
  notify_leaving-clients n i (some c ∷ cs) s {t} e =
      grind
        (arith, send_data-clients, λ (u : Server D). notify_leaving-clients n (i + 1) cs u {t = t})

  pub disconnect-clients :
      (n : ℕ) (s : Server D) {t : Server D}
      → disconnect n s ≡ some t
      → t.clients ≡ set s.clients n none
  unfolding disconnect
  disconnect-clients n s {t} e = grind (arith, notify_leaving-clients)

  pub answer-clients :
      (n : ℕ) (value : Bool) (s : Server D) {t : Server D}
      → answer n value s ≡ some t
      → t.clients ≡ s.clients
  answer-clients n value s e =
      let (c, here, sent) = >>=-eq-some (client_at s.clients n) _ e in
      send_boolean-clients c.con value s sent

  pub change-clients :
      (n : ℕ) (f : Client → Client) (c : Client) (cs : List (Option Client)) (s : Server D)
      {t : Server D}
      → s.clients ≡ cs
      → client_at cs n ≡ some c
      → change n f s ≡ some t
      → t.clients ≡ set cs n (some (f c))
  change-clients n f c cs s {t} same here e =
      let at_s : client_at s.clients n ≡ some c = ap (λ l. client_at l n) same ∙ here in
      let made : some (put_client n (some (f c)) s) ≡ some t = (rw (at_s) at e) in
      sym (ap (λ u. u.clients) (some-injective _ _ made)) ∙ ap (λ l. set l n (some (f c))) same

  send_board_from-clients :
      (cs : List (Option Client)) (d : StreamData) (s : Server D) {t : Server D}
      → send_board_from cs d s ≡ some t
      → t.clients ≡ s.clients
  unfolding send_board_from
  send_board_from-clients [] d s e = ap (λ u. u.clients) (sym (some-injective _ _ e))
  send_board_from-clients (none ∷ cs) d s e = send_board_from-clients cs d s e
  send_board_from-clients (some c ∷ cs) d s e =
      let (u, e1, e2) = >>=-eq-some (send_data c.con d s) _ e in
      send_board_from-clients cs d u e2 ∙ send_data-clients c.con d s e1

  pub send_board-clients :
      (behind : Bytes) (gb : GameBoard) (s : Server D) {t : Server D}
      → send_board behind gb s ≡ some t
      → t.clients ≡ s.clients
  unfolding send_board
  send_board-clients behind gb s e =
      let bd : Board = record { board = gb.g_b; rows = pos 20; columns = pos 20 } in
      let (d, e1, e2) = >>=-eq-some (marshalling behind (board bd) board_tag) _ e in
      send_board_from-clients s.clients d s e2

  pub start_board-clients :
      (uninit : GameBoard) (s : Server D) {t : Server D}
      → start_board uninit s ≡ some t
      → t.clients ≡ s.clients
  unfolding start_board
  start_board-clients uninit s e =
      let (u, e1, e2) = >>=-eq-some (with_log (log_msg "Game starting") s) _ e in
      let (b, e3, e4) = >>=-eq-some (load_players 0 u.clients (init_board uninit)) _ e2 in
      ap (λ v. v.clients) (sym (some-injective _ _ e4))
      ∙ with_log-clients (log_msg "Game starting") s e1
