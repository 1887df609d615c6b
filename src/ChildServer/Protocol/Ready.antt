-- ===== src/ChildServer/Protocol/Ready.antt =====
-- `checkGameStart` and the request of a client that says whether it is ready.
use snuffin.ChildServer.Protocol.{
  eqb_ℤ, stays, starts, notify_new_player-clients, readies, pos, count_players, start_from_lem,
  waits, unmarsh_boolean, ready_play, waiting, Change,
}
use snuffin.ChildServer.Start.{in_game}
use snuffin.Libc.Print.{Bytes}
use snuffin.ChildServer.State.{put_client, ready_to_play, client_at, Server, Client}
use snuffin.ChildServer.Requests.{all_ready, check_game_start, resolve_ready}
use snuffin.Common.{
  sym, ap, ◌==◌, inr, Bool-cases, subst, refl, [], inl, ◌<◌, true, >>=-eq-some, arith, ◌⊎◌, map,
  some, ◌>>=◌, ◌≡◌, ℕ,
}
use snuffin.ChildServer.Notify.{notify_new_player, send_game_start}
use mathlib.Core.Option.{some-injective}

module _ {D : Type 0} where
  send_game_start-clients :
      (s : Server D) {t : Server D} → send_game_start s ≡ some t → t.clients ≡ map in_game s.clients
  unfolding send_game_start
  send_game_start-clients s e = grind (arith, λ (u : Server D). start_from_lem u.clients [] u refl)

  check_game_start-clients :
      (s : Server D) {t : Server D}
      → check_game_start s ≡ some t
      → (t.clients ≡ s.clients)
        ⊎ ((all_ready s.clients ≡ true)
            × (1 < count_players s.clients)
            × (t.clients ≡ map in_game s.clients))
  unfolding check_game_start
  check_game_start-clients s {t} e =
      grind (arith, send_game_start-clients (record s { start_game = 1 }) {t = t})

  -- What becomes of the clients once the client is ready.
  tell_ready-clients :
      (n : ℕ) (s : Server D) {t : Server D}
      → (notify_new_player n s >>= λ s. check_game_start s) ≡ some t
      → (t.clients ≡ s.clients)
        ⊎ ((all_ready s.clients ≡ true)
            × (1 < count_players s.clients)
            × (t.clients ≡ map in_game s.clients))
  tell_ready-clients n s {t} e =
      let (u, e1, e2) = >>=-eq-some (notify_new_player n s) check_game_start e in
      let same : u.clients ≡ s.clients = notify_new_player-clients n s e1 in
      subst
        (λ cs.
          (t.clients ≡ cs)
          ⊎ ((all_ready cs ≡ true) × (1 < count_players cs) × (t.clients ≡ map in_game cs)))
        same (check_game_start-clients u e2)

  got_ready-Change :
      (n : ℕ) (c : Client) (s : Server D) {t : Server D}
      → client_at s.clients n ≡ some c
      → c.expecting ≡ ready_to_play
      → (notify_new_player n (put_client n (some (record c { state = ready_play })) s) >>= λ s.
          check_game_start s)
        ≡ some t
      → Change n s.clients t.clients
  got_ready-Change n c s {t} here ex e =
      elim (tell_ready-clients n (put_client n (some (record c { state = ready_play })) s) e) [
        | inl same ↦ readies c here ex same
        | inr (all, many, started) ↦ starts c _ here ex refl all many started
      ]

  not_ready-Change :
      (n : ℕ) (c : Client) (s : Server D) {t : Server D}
      → client_at s.clients n ≡ some c
      → c.expecting ≡ ready_to_play
      → notify_new_player n (put_client n (some (record c { state = waiting })) s) ≡ some t
      → Change n s.clients t.clients
  not_ready-Change n c s here ex e = waits c here ex (notify_new_player-clients n _ e)

  pub resolve_ready-Change :
      (bytes : Bytes) (n : ℕ) (c : Client) (s : Server D) {t : Server D}
      → client_at s.clients n ≡ some c
      → c.expecting ≡ ready_to_play
      → resolve_ready bytes n s ≡ some t
      → Change n s.clients t.clients
  unfolding resolve_ready
  resolve_ready-Change bytes n c s {t} here ex e =
      let ((res, value), e1, e2) = >>=-eq-some (unmarsh_boolean bytes (pos 0)) _ e in
      elim (Bool-cases (res == 0)) [
        | inl bad ↦
            let e3 : some s ≡ some t = (rw (bad) at e2) in
            stays (ap (λ u. u.clients) (sym (some-injective _ _ e3)))
        | inr good ↦ elim (Bool-cases (eqb_ℤ value (pos 0))) [
          | inl off ↦ not_ready-Change n c s here ex (rw (good, here, off) at e2)
          | inr on ↦ got_ready-Change n c s here ex (rw (good, here, on) at e2)
        ]
      ]
