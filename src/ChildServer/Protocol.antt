-- ===== src/ChildServer/Protocol.antt =====
-- The protocol that a lobby's clients follow, and that `resolveRequest` keeps to.
pub mod Ready
pub mod Users
pub mod Passwords
pub mod Requests
use snuffin.ChildServer.Login.{named}
use snuffin.ChildServer.Keeps.{notify_new_player-clients}
use snuffin.Marshalling.Decode.{unmarsh_boolean}
use snuffin.Common.Int.{eqb_ℤ, pos, ℤ}
use snuffin.ChildServer.Start.{start_from_lem, in_game}
use snuffin.Libc.Print.{Bytes}
use snuffin.ChildServer.State.{
  new_password, password, ready_play, waiting, user, put_client, ready_to_play, client_at, Server,
  Client,
}
use snuffin.Common.{
  sym, ap, refl, ◌==◌, subst, Bool-cases, inr, [], ◌<◌, inl, true, arith, >>=-eq-some, map, none,
  ◌⊎◌, ◌>>=◌, set, some, ◌≡◌, Option, List, ℕ,
}
use snuffin.ChildServer.Notify.{notify_new_player, send_game_start}
use snuffin.ChildServer.Requests.{
  let_wait, count_players, all_ready, resolve_ready, check_game_start,
}

-- What one request of client n may make of the clients `cs`.
pub data Change (n : ℕ) (cs : List (Option Client)) : List (Option Client) → Type 0 where
  stays : {ds : List (Option Client)} → ds ≡ cs → Change n cs ds
  -- Its connection is closed.
  leaves : {ds : List (Option Client)} → ds ≡ set cs n none → Change n cs ds
  -- It gives its name, and a password or a new password is expected.
  names :
      {ds : List (Option Client)} (c : Client) (text : Bytes) (e : ℕ) (score : ℤ)
      → client_at cs n ≡ some c
      → c.expecting ≡ user
      → (e ≡ password) ⊎ (e ≡ new_password)
      → ds ≡ set cs n (some (named text e score c))
      → Change n cs ds
  -- Its password is right, or its account was made.
  admitted :
      {ds : List (Option Client)} (c : Client)
      → client_at cs n ≡ some c
      → (c.expecting ≡ password) ⊎ (c.expecting ≡ new_password)
      → ds ≡ set cs n (some (let_wait c))
      → Change n cs ds
  -- It is not ready, or is ready.
  waits :
      {ds : List (Option Client)} (c : Client)
      → client_at cs n ≡ some c
      → c.expecting ≡ ready_to_play
      → ds ≡ set cs n (some (record c { state = waiting }))
      → Change n cs ds
  readies :
      {ds : List (Option Client)} (c : Client)
      → client_at cs n ≡ some c
      → c.expecting ≡ ready_to_play
      → ds ≡ set cs n (some (record c { state = ready_play }))
      → Change n cs ds
  -- It is ready, and with it all the clients, which are two at least: the game starts.
  starts :
      {ds : List (Option Client)} (c : Client) (bs : List (Option Client))
      → client_at cs n ≡ some c
      → c.expecting ≡ ready_to_play
      → bs ≡ set cs n (some (record c { state = ready_play }))
      → all_ready bs ≡ true
      → 1 < count_players bs
      → ds ≡ map in_game bs
      → Change n cs ds
