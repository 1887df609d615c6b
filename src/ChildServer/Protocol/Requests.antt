-- ===== src/ChildServer/Protocol/Requests.antt =====
-- `resolveRequest`: every request keeps to the protocol of the clients.
use snuffin.ChildServer.Listen.{listen_and_resolve}
use snuffin.Log.{log_error}
use snuffin.ChildServer.Protocol.Users.{validate_user-Change}
use snuffin.ChildServer.Keeps.{with_log-clients, disconnect-clients}
use snuffin.ChildServer.Protocol.Ready.{resolve_ready-Change}
use snuffin.ComWrapper.Reader.{read_data}
use snuffin.ChildServer.Protocol.Passwords.{resolve_new_password-Change, resolve_password-Change}
use snuffin.Game.Board.{update_movement_direction}
use snuffin.ChildServer.Protocol.{
  ready_to_play, new_password, password, leaves, user, stays, pos, Change,
}
use snuffin.Common.{
  none, Option, arith, false, subst, ◌⊎◌, ◌>>=◌, inr, sym, ap, inl, ◌==◌, Bool-cases, >>=-eq-some,
  some, ◌≡◌, ℕ,
}
use snuffin.Libc.Print.{Bytes}
use snuffin.Marshalling.Decode.{unmarsh_point, Frame}
use snuffin.ChildServer.Requests.{
  validate_user, resolve_request, resolve_expecting, resolve_movement,
}
use snuffin.ChildServer.State.{movement, client_at, Client, Server, Memory, Db}
use mathlib.Core.Option.{some-injective}

expecting-cases :
    (x : ℕ)
    → (x ≡ user)
      ⊎ (x ≡ password)
      ⊎ (x ≡ new_password)
      ⊎ (x ≡ ready_to_play)
      ⊎ (x ≡ movement)
      ⊎ (((x == user) ≡ false)
          × ((x == password) ≡ false)
          × ((x == new_password) ≡ false)
          × ((x == ready_to_play) ≡ false)
          × ((x == movement) ≡ false))
expecting-cases x = ground arith

module _ {D : Type 0} (db : Db D) where
  resolve_movement-Change :
      (frame : Frame) (bytes : Bytes) (n : ℕ) (s : Server D) {t : Server D}
      → resolve_movement frame bytes n s ≡ some t
      → Change n s.clients t.clients
  unfolding resolve_movement
  resolve_movement-Change frame bytes n s {t} e =
      let ((res, p), e1, e2) =
        >>=-eq-some (unmarsh_point frame bytes (record { x = pos 0; y = pos 0 })) _ e in
      elim (Bool-cases (res == 0)) [
        | inl bad ↦
            let e3 : some s ≡ some t = (rw (bad) at e2) in
            stays (ap (λ v. v.clients) (sym (some-injective _ _ e3)))
        | inr good ↦
            let e3 : (update_movement_direction n p s.game_board >>= λ b.
            some (record s { game_board = some b }))
                ≡ some t =
              (rw (good) at e2) in
            let (b, e4, e5) = >>=-eq-some (update_movement_direction n p s.game_board) _ e3 in
            stays (ap (λ v. v.clients) (sym (some-injective _ _ e5)))
      ]

  asks_name-Change :
      (memory : Memory) (bytes : Bytes) (size n : ℕ) (c : Client) (s : Server D) {t : Server D}
      → client_at s.clients n ≡ some c
      → c.expecting ≡ user
      → (validate_user db memory bytes size n s >>= λ (r, s). some s) ≡ some t
      → Change n s.clients t.clients
  asks_name-Change memory bytes size n c s here is e =
      let ((r, u), e1, e2) = >>=-eq-some (validate_user db memory bytes size n s) _ e in
      subst (Change n s.clients) (ap (λ v. v.clients) (some-injective _ _ e2))
        (validate_user-Change db memory bytes size n c s here is e1)

  resolve_expecting-Change :
      (memory : Memory) (bytes : Bytes) (size n : ℕ) (c : Client) (s : Server D) {t : Server D}
      → client_at s.clients n ≡ some c
      → resolve_expecting db memory bytes size c.expecting n s ≡ some t
      → Change n s.clients t.clients
  unfolding resolve_expecting
  resolve_expecting-Change memory bytes size n c s {t} here e = elim (expecting-cases c.expecting) [
    | inl is ↦ asks_name-Change memory bytes size n c s here is (rw (is) at e)
    | inr (inl is) ↦ resolve_password-Change db memory bytes size n c s here is (rw (is) at e)
    | inr (inr (inl is)) ↦ resolve_new_password-Change db memory bytes n c s here is (rw (is) at e)
    | inr (inr (inr (inl is))) ↦ resolve_ready-Change bytes n c s here is (rw (is) at e)
    | inr (inr (inr (inr (inl is)))) ↦ resolve_movement-Change memory.frame bytes n s (rw (is) at e)
    | inr (inr (inr (inr (inr (no1, no2, no3, no4, no5))))) ↦ stays (
        with_log-clients (log_error "Invalid expecting state") s
          (rw (no1, no2, no3, no4, no5) at e))
  ]

  -- Every request of client n that is resolved changes the clients by one step of their protocol.
  pub resolve_request-Change :
      (memory : Memory) (n : ℕ) (s : Server D) {t : Server D}
      → resolve_request db memory n s ≡ some t
      → Change n s.clients t.clients
  unfolding resolve_request
  resolve_request-Change memory n s {t} e =
      let (c, here, e2) = >>=-eq-some (client_at s.clients n) _ e in
      let (got, e3, e4) = >>=-eq-some (read_data s.reader memory.incoming memory.buffer) _ e2 in
      let s1 : Server D = record s { reader = got.reader } in
      elim (Bool-cases (got.code == 0)) [
        | inl closed ↦ leaves (disconnect-clients n s1 (rw (closed) at e4))
        | inr more ↦
            resolve_expecting-Change memory got.bytes got.size n c s1 here (rw (more) at e4)
      ]

  pub listen_and_resolve-Change :
      (memory : Memory) (chosen : Option ℕ) (s : Server D) {t : Server D}
      → listen_and_resolve db memory chosen s ≡ some t
      → (n : ℕ) × Change n s.clients t.clients
  unfolding listen_and_resolve
  listen_and_resolve-Change memory none s e =
      (0, stays (with_log-clients (log_error "Error in Select") s e))
  listen_and_resolve-Change memory (some n) s e = (n, resolve_request-Change memory n s e)
