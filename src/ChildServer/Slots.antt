-- ===== src/ChildServer/Slots.antt =====
-- The places of `clients`: where `listenNewClients` puts a client.
use snuffin.Game.Valid.{assign-set}
use snuffin.Log.{log_msg, info_level}
use snuffin.ChildServer.Logging.{log_msg_lem, send_log_lem}
use snuffin.Game.Board.{max_players}
use snuffin.ChildServer.State.{Server, Client}
use snuffin.ChildServer.Requests.{count_players}
use snuffin.ChildServer.Listen.{add_client, new_client, listen_round, Listener, scan_clients}
use snuffin.Common.{
  get_lt, length-set, codes, inr, inl, Bool-cases, ap₂, set, ◌∙◌, ◌==◌, ◌^◌, ltb, refl, get_elem?,
  if◌then◌else◌, none, [], arith, length, suc, some, ◌≡◌, ◌+◌, ◌<◌, ◌≤◌, ◌∷◌, ℕ, Option, List,
}

-- The number of the first place that is free, counted from 0; the length if none is.
unfoldable pub first_empty : List (Option Client) → ℕ
first_empty [] = 0
first_empty (none ∷ cs) = 0
first_empty (some c ∷ cs) = suc (first_empty cs)

scan_past :
    (i : ℕ) (cs : List (Option Client)) (n e : ℕ)
    → e < i
    → scan_clients i cs n e ≡ (n + count_players cs, e)
unfolding scan_clients count_players
scan_past i [] n e h = ground arith
scan_past i (none ∷ cs) n e h = ground (arith, scan_past (i + 1) cs n e)
scan_past i (some c ∷ cs) n e h = ground (arith, scan_past (i + 1) cs (n + 1) e)

scan_lem :
    (i : ℕ) (cs : List (Option Client)) (n e : ℕ)
    → i ≤ e
    → e ≤ i + length cs
    → scan_clients i cs n e ≡ (n + count_players cs, i + first_empty cs)
unfolding scan_clients count_players first_empty
scan_lem i [] n e h k = ground arith
scan_lem i (none ∷ cs) n e h k =
    let at_i : (if ltb i e then i else e) ≡ i = ground arith in
    let rest : scan_clients (i + 1) cs n i ≡ (n + count_players cs, i) =
      scan_past (i + 1) cs n i (omega arith) in
    let here : i + 0 ≡ i = omega arith in rw (at_i, rest, here) refl
scan_lem i (some c ∷ cs) n e h k =
    let e' : ℕ = if e == i then e + 1 else e in
    let behind : i + 1 ≤ e' = ground arith in
    let within : e' ≤ i + 1 + length cs = ground arith in
    let rest : scan_clients (i + 1) cs (n + 1) e'
        ≡ (n + 1 + count_players cs, i + 1 + first_empty cs) =
      scan_lem (i + 1) cs (n + 1) e' behind within in
    rest ∙ ap₂ (λ a b. (a, b)) (omega arith) (omega arith)

first_empty-free :
    (cs : List (Option Client))
    → count_players cs < length cs
    → (get_elem? cs (first_empty cs) ≡ some none) × (first_empty cs < length cs)
unfolding count_players first_empty
first_empty-free [] h = absurd (omega (arith, h))
first_empty-free (none ∷ cs) h = (refl, omega arith)
first_empty-free (some c ∷ cs) h =
    let (free, within) = first_empty-free cs (omega (arith, h)) in (free, omega (arith, within))

first_empty_le : (cs : List (Option Client)) → first_empty cs ≤ length cs
unfolding first_empty
first_empty_le [] = omega arith
first_empty_le (none ∷ cs) = omega arith
first_empty_le (some c ∷ cs) = let le = first_empty_le cs in omega (arith, le)

-- What the thread knows of the clients when it waits for the next one.
pub record InStep {D : Type 0} (l : Listener) (s : Server D) : Type 0 where
  pub size : length s.clients ≡ max_players
  pub room : l.next_empty ≤ max_players
  pub free : l.n_players < max_players → get_elem? s.clients l.next_empty ≡ some none

pub recount :
    {D : Type 0} (e : ℕ) (s : Server D)
    → length s.clients ≡ max_players
    → e ≤ max_players
    → (scan_clients 0 s.clients 0 e ≡ (count_players s.clients, first_empty s.clients))
      × InStep
          (record { n_players = count_players s.clients; next_empty = first_empty s.clients })
          s
recount e s size room =
    let within : e ≤ 0 + length s.clients = omega (arith, size, room) in
    (
      scan_lem 0 s.clients 0 e (omega arith) within
          ∙ ap₂ (λ a b. (a, b)) (omega arith) (omega arith),
      record {
        size = size;
        room = omega (arith, first_empty_le s.clients, size);
        free = λ less. (first_empty-free s.clients (omega (arith, less, size))).0;
      },
    )

-- One round puts the new client in a free place if there were less than four players, and nothing
-- anywhere otherwise: no client is overwritten, and no other place is touched. Afterwards the
-- thread knows the number of players and the first free place. It starts from a free place, unless
-- it knows of four players; the process number has at most seven digits.
pub listen_round_lem :
    {D : Type 0} (con : ℕ) (l : Listener) (s : Server D)
    → InStep l s
    → s.log.pid < 10 ^ 7
    → (l' : Listener) × (s' : Server D) × (listen_round con l s ≡ some (l', s'))
      × (s'.clients ≡ (
          if ltb l.n_players max_players
          then set s.clients l.next_empty (some (new_client con))
          else s.clients))
      × (l'.n_players ≡ count_players s'.clients)
      × (l'.next_empty ≡ first_empty s'.clients)
      × InStep l' s'
unfolding listen_round add_client
listen_round_lem {D} con l s step pid = elim (Bool-cases (ltb l.n_players max_players)) [
  | inl more ↦
      let (log, e_log, _) = send_log_lem (codes "New incoming connection") info_level s.log pid in
      let free : get_elem? s.clients l.next_empty ≡ some none = step.free (ground arith) in
      let cs : List (Option Client) = set s.clients l.next_empty (some (new_client con)) in
      let s' : Server D = record s { log = log; clients = cs } in
      let size : length s'.clients ≡ max_players =
        length-set s.clients l.next_empty _ ∙ step.size in
      let (scanned, step') = recount l.next_empty s' size step.room in
      let told : log_msg "New incoming connection" s.log ≡ some log =
        log_msg_lem "New incoming connection" s.log e_log in
      (
        record { n_players = count_players cs; next_empty = first_empty cs },
        s',
        rw
            (
              more,
              told,
              assign-set s.clients l.next_empty (some (new_client con))
                  (get_lt s.clients l.next_empty free),
              scanned,
            )
            refl,
        rw (more) refl,
        refl,
        refl,
        step',
      )
  | inr full ↦
      let (scanned, step') = recount l.next_empty s step.size step.room in
      (
        record { n_players = count_players s.clients; next_empty = first_empty s.clients },
        s,
        rw (full, scanned) refl,
        rw (full) refl,
        refl,
        refl,
        step',
      )
]
