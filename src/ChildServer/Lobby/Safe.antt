-- ===== src/ChildServer/Lobby/Safe.antt =====
-- The threads of childServer.c, in any order, keep the clients and the free places right.
use snuffin.Game.Callback.{update_board-keeps}
use snuffin.Game.Tick.{update_board}
use snuffin.Game.Valid.{assign-set}
use snuffin.ChildServer.Keeps.{send_board-clients, start_board-clients, with_log-clients}
use snuffin.Log.{log_msg}
use snuffin.ChildServer.Lobby.Free.{refl-Spares, player_lost-Spares, Change-Spares, InStep-Spares}
use snuffin.ChildServer.Protocol.Requests.{listen_and_resolve-Change}
use snuffin.Game.Board.{assign, max_players}
use snuffin.ChildServer.Slots.{recount, InStep}
use snuffin.ChildServer.Lobby.Sound.{
  All-set, IsNamed-with, Change-IsSound, client_at-IsSound, IsSound,
}
use snuffin.ChildServer.Match.{send_board, player_lost, game_round}
use snuffin.Common.{
  Bool, get_lt, ◌<◌, length-set, sym, subst, ◌∙◌, arith, Bool-cases, refl, ap, ltb, if◌then◌else◌,
  ◌≤◌, set, inl, >>=-eq-some, inr, none, ◌≡◌, get_elem?, All, length, some, ℕ,
}
use snuffin.ChildServer.Lobby.{
  Bytes, none_yet, and_then, listens, resolves, begins, plays, Runs, Turn, Running,
}
use snuffin.ChildServer.Listen.{
  init_server, scan_clients, new_listener, new_client, Listener, listen_round, add_client,
}
use snuffin.ChildServer.State.{Server, loose, with_log, Client, client_at, Db}
use mathlib.Core.Option.{some-injective}

-- What holds between two turns.
pub record IsSafe {D : Type 0} (p : Running D) : Type 0 where
  pub step : InStep p.0 p.1
  pub sound : All IsSound p.1.clients

init_server-IsSafe :
    {D : Type 0} (opened : Bool) (s : Server D) {t : Server D}
    → init_server opened s ≡ some t
    → IsSafe (new_listener, t)
unfolding IsSound init_server
init_server-IsSafe opened s e =
    let free = with_log-clients (log_msg "Initializing server") _ e in
    record {
      step = record {
        size = ap length free;
        room = omega arith;
        free = λ _. ap (λ cs. get_elem? cs 0) free;
      };
      sound = subst (All IsSound) (sym free) (tt, (tt, (tt, (tt, tt))));
    }

add_client-clients :
    {D : Type 0} (con : ℕ) (l : Listener) (s : Server D) {t : Server D}
    → get_elem? s.clients l.next_empty ≡ some none
    → add_client con l s ≡ some t
    → t.clients ≡ set s.clients l.next_empty (some (new_client con))
unfolding add_client
add_client-clients con l s {t} free e =
    let (u, e1, e2) = >>=-eq-some (with_log (log_msg "New incoming connection") s) _ e in
    let same : u.clients ≡ s.clients = with_log-clients (log_msg "New incoming connection") s e1 in
    let (cs, e3, e4) = >>=-eq-some (assign u.clients l.next_empty (some (new_client con))) _ e2 in
    let within : l.next_empty < length u.clients =
      subst (λ ds. l.next_empty < length ds) (sym same) (get_lt s.clients l.next_empty free) in
    let put : assign u.clients l.next_empty (some (new_client con))
        ≡ some (set u.clients l.next_empty (some (new_client con))) =
      assign-set u.clients l.next_empty _ within in
    ap (λ v. v.clients) (sym (some-injective _ _ e4))
    ∙ some-injective _ _ (sym e3 ∙ put)
    ∙ ap (λ ds. set ds l.next_empty (some (new_client con))) same

new_client-IsSound : (con : ℕ) → IsSound (some (new_client con))
unfolding IsSound
new_client-IsSound con = inr (refl, inl refl)

-- The count after a round.
counted-IsSafe :
    {D : Type 0} (e : ℕ) (s : Server D) {p : Running D}
    → length s.clients ≡ max_players
    → e ≤ max_players
    → All IsSound s.clients
    → some (
      record {
        n_players = (scan_clients 0 s.clients 0 e).0;
        next_empty = (scan_clients 0 s.clients 0 e).1;
      },
      s,
    )
      ≡ some p
    → IsSafe p
counted-IsSafe e s {p} size room sound done =
    let (scanned, step) = recount e s size room in
    subst IsSafe (some-injective _ _ (rw (scanned) at done)) (record { step = step; sound = sound })

listen_round-IsSafe :
    {D : Type 0} (con : ℕ) (l : Listener) (s : Server D) {p : Running D}
    → IsSafe (l, s)
    → listen_round con l s ≡ some p
    → IsSafe p
unfolding listen_round
listen_round-IsSafe con l s {p} safe e =
    let (u, e1, e2) =
      >>=-eq-some (if ltb l.n_players max_players then add_client con l s else some s) _ e in
    elim (Bool-cases (ltb l.n_players max_players)) [
      | inl more ↦
          let added =
            add_client-clients con l s (safe.step.free (ground (arith, more))) (rw (more) at e1) in
          counted-IsSafe l.next_empty u
            (ap length added ∙ length-set s.clients l.next_empty _ ∙ safe.step.size) safe.step.room
            (subst (All IsSound) (sym added)
              (All-set s.clients l.next_empty _ safe.sound (new_client-IsSound con)))
            e2
      | inr full ↦
          let same : s ≡ u = some-injective _ _ (rw (full) at e1) in
          counted-IsSafe l.next_empty u
            (subst (λ v. length v.clients ≡ max_players) same safe.step.size) safe.step.room
            (subst (λ v. All IsSound v.clients) same safe.sound) e2
    ]

player_lost-IsSound :
    {D : Type 0} (n : ℕ) (s : Server D) {t : Server D}
    → All IsSound s.clients
    → player_lost n s ≡ some t
    → All IsSound t.clients
unfolding player_lost IsSound
player_lost-IsSound n s {t} sound e =
    let (c, here, e2) = >>=-eq-some (client_at s.clients n) _ e in
    let c' : Client = record c { state = loose } in
    let marked : IsSound (some c') = elim (client_at-IsSound s.clients n c sound here) [
      | inl named ↦ inl (IsNamed-with c c' refl refl named)
      | inr (asked, _) ↦ inr (asked, inr refl)
    ] in
    subst (All IsSound) (ap (λ u. u.clients) (some-injective _ _ e2))
      (All-set s.clients n _ sound marked)

same-IsSafe :
    {D : Type 0} (l : Listener) (s t : Server D)
    → t.clients ≡ s.clients
    → IsSafe (l, s)
    → IsSafe (l, t)
same-IsSafe l s t same safe = record {
  step = InStep-Spares l s t (refl-Spares s.clients t.clients same) safe.step;
  sound = subst (All IsSound) (sym same) safe.sound;
}

player_lost-IsSafe :
    {D : Type 0} (l : Listener) (n : ℕ) (s t : Server D)
    → player_lost n s ≡ some t
    → IsSafe (l, s)
    → IsSafe (l, t)
player_lost-IsSafe l n s t e safe = record {
  step = InStep-Spares l s t (player_lost-Spares n s e) safe.step;
  sound = player_lost-IsSound n s safe.sound e;
}

game_round-IsSafe :
    {D : Type 0} (l : Listener) (behind : Bytes) (s : Server D) {finished : Bool} {t : Server D}
    → game_round behind s ≡ some (finished, t)
    → IsSafe (l, s)
    → IsSafe (l, t)
unfolding game_round
game_round-IsSafe l behind s {finished} {t} e safe =
    let (b, e1, e2) = >>=-eq-some s.game_board _ e in
    let ((b', u), e3, e4) = >>=-eq-some (update_board player_lost b s) _ e2 in
    let moved : IsSafe (l, u) =
      update_board-keeps player_lost (λ v. IsSafe (l, v)) (player_lost-IsSafe l) b s e3 safe in
    let (v, e5, e6) = >>=-eq-some (send_board behind b' (record u { game_board = some b' })) _ e4 in
    let same : v.clients ≡ u.clients = send_board-clients behind b' _ e5 in
    let last : v ≡ t = ap (λ q. q.1) (some-injective _ _ e6) in
    subst (λ w. IsSafe (l, w)) last (same-IsSafe l u v same moved)

pub Turn-IsSafe : {D : Type 0} {db : Db D} {p q : Running D} → Turn db p q → IsSafe p → IsSafe q
Turn-IsSafe (listens {l} {s = s} con e) safe = listen_round-IsSafe con l s safe e
Turn-IsSafe {db = db} (resolves {l} {s} {s'} memory chosen e) safe =
    let (n, change) = listen_and_resolve-Change db memory chosen s e in
    record {
      step = InStep-Spares l s s' (Change-Spares change) safe.step;
      sound = Change-IsSound change safe.sound;
    }
Turn-IsSafe (begins {l} {s} {s'} uninit e) safe =
    same-IsSafe l s s' (start_board-clients uninit s e) safe
Turn-IsSafe (plays {l} {s} behind finished e) safe = game_round-IsSafe l behind s e safe

-- From the server that `initServer` makes on, whatever the order in which the threads take their
-- turns: the place where the next client goes is free, and every client that is past its first
-- request has a name and a score.
pub Runs-IsSafe :
    {D : Type 0} (db : Db D) (opened : Bool) (s : Server D) {t : Server D} {p : Running D}
    → init_server opened s ≡ some t
    → Runs db (new_listener, t) p
    → IsSafe p
Runs-IsSafe db opened s e none_yet = init_server-IsSafe opened s e
Runs-IsSafe db opened s e (and_then runs turn) = Turn-IsSafe turn (Runs-IsSafe db opened s e runs)
