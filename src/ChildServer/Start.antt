-- ===== src/ChildServer/Start.antt =====
-- When the lobby's game starts: `checkGameStart` and `sendGameStart`.
use snuffin.Log.{log_msg, info_level}
use snuffin.ChildServer.Logging.{log_msg_lem, send_log_lem}
use snuffin.Libc.Buffer.{memcpy, store, calloc, sprintf}
use snuffin.Marshalling.Places.{num_places}
use snuffin.Marshalling.Encode.{marsh_boolean}
use snuffin.Marshalling.Tags.{boolean_tag}
use snuffin.Marshalling.Message.{marshalling}
use snuffin.ChildServer.Requests.{count_players, all_ready, check_game_start}
use snuffin.Common.{
  inr, inl, append_assoc, Bool-cases, ◌∙◌, length-append, ◌+◌, append-nil, codes, sym, ◌≢◌, false,
  ltb, ◌&&◌, refl, true, map, ◌^◌, ap, none, [], length, if◌then◌else◌, ◌<◌, ◌≡◌, some, ◌∷◌, ◌++◌,
  ℕ, set, Bool, List, Option,
}
use snuffin.Libc.Print.{show_int, Bytes}
use snuffin.ChildServer.State.{put_client, movement, playing, Server, Client, send_boolean}
use snuffin.ChildServer.Notify.{send_game_start, start_from}

-- The bytes of TRUE and of FALSE.
abbrev pub flag : Bool → Bytes
flag value = boolean_tag ∷ (if value then b'1' else b'0') ∷ 0 ∷ []

pub send_boolean_lem :
    {D : Type 0} (con : ℕ) (value : Bool) (s : Server D)
    → send_boolean con value s ≡ some (record s { sent = s.sent ++ (con, flag value) ∷ [] })
unfolding send_boolean marshalling marsh_boolean num_places sprintf calloc show_int store memcpy
send_boolean_lem con true s = refl
send_boolean_lem con false s = refl

-- A client whose game has begun.
abbrev pub in_game : Option Client → Option Client
in_game none = none
in_game (some c) = some (record c { state = playing; expecting = movement })

-- The same message to each client that is there, in the order of the clients.
unfoldable pub to_all : Bytes → List (Option Client) → List (ℕ × Bytes)
to_all bytes [] = []
to_all bytes (none ∷ cs) = to_all bytes cs
to_all bytes (some c ∷ cs) = (c.con, bytes) ∷ to_all bytes cs

set_middle :
    {A : Type 0} (done : List A) (x y : A) (rest : List A)
    → set (done ++ x ∷ rest) (length done) y ≡ done ++ y ∷ rest
set_middle [] x y rest = refl
set_middle (z ∷ done) x y rest = ap (λ l. z ∷ l) (set_middle done x y rest)

pub start_from_lem :
    {D : Type 0} (cs done : List (Option Client)) (s : Server D)
    → s.clients ≡ done ++ cs
    → start_from cs s (length done)
      ≡ some (record s { clients = done ++ map in_game cs; sent = s.sent ++ to_all (flag true) cs })
unfolding start_from to_all
start_from_lem [] done s e = rw (sym e, append-nil s.sent) refl
start_from_lem (none ∷ cs) done s e =
    let size : length (done ++ none ∷ []) ≡ length done + 1 = length-append done (none ∷ []) in
    let ih = start_from_lem cs (done ++ none ∷ []) s (e ∙ sym (append_assoc done (none ∷ []) cs)) in
    rw (size, append_assoc done (none ∷ []) (map in_game cs)) at ih
start_from_lem {D} (some c ∷ cs) done s e =
    let c' : Option Client = in_game (some c) in
    let s1 : Server D = record s {
      clients = set s.clients (length done) c';
      sent = s.sent ++ (c.con, flag true) ∷ [];
    } in
    let size : length (done ++ c' ∷ []) ≡ length done + 1 = length-append done (c' ∷ []) in
    let changed : s1.clients ≡ (done ++ c' ∷ []) ++ cs =
      ap (λ l. set l (length done) c') e
      ∙ set_middle done (some c) c' cs
      ∙ sym (append_assoc done (c' ∷ []) cs) in
    let ih = start_from_lem cs (done ++ c' ∷ []) s1 changed in
    let ih' =
      (rw
        (
          size,
          append_assoc done (c' ∷ []) (map in_game cs),
          append_assoc s.sent ((c.con, flag true) ∷ []) (to_all (flag true) cs),
        )
        at ih) in
    rw (send_boolean_lem c.con true (put_client (length done) c' s)) ih'

true_not_false : true ≢ false
true_not_false e = cc

-- The game starts exactly when the clients that are there are at least two and all ready. Then each
-- of them is playing, its moves are expected, and it gets TRUE; otherwise nothing changes. The
-- process number has at most seven digits.
pub check_game_start_lem :
    {D : Type 0} (s : Server D)
    → s.log.pid < 10 ^ 7
    → (s' : Server D) × (check_game_start s ≡ some s')
      × ((all_ready s.clients && ltb 1 (count_players s.clients)) ≡ true
          → (s'.clients ≡ map in_game s.clients)
            × (s'.sent ≡ s.sent ++ to_all (flag true) s.clients)
            × (s'.start_game ≡ 1))
      × ((all_ready s.clients && ltb 1 (count_players s.clients)) ≡ false → s' ≡ s)
unfolding check_game_start send_game_start
check_game_start_lem {D} s pid =
    let (log, told, _) =
      send_log_lem (codes "Notifying players about game start") info_level s.log pid in
    let told' : log_msg "Notifying players about game start" s.log ≡ some log =
      log_msg_lem "Notifying players about game start" s.log told in
    let s1 : Server D = record s { start_game = 1; log = log } in
    let started = start_from_lem s.clients [] s1 refl in
    elim (Bool-cases (all_ready s.clients && ltb 1 (count_players s.clients))) [
      | inl go ↦ (
        record s1 {
          clients = map in_game s.clients;
          sent = s.sent ++ to_all (flag true) s.clients;
        },
        rw (go, told') started,
        (λ _. (refl, refl, refl)),
        (λ stay. absurd (true_not_false (sym go ∙ stay))),
      )
      | inr stay ↦ (s, rw (stay) refl, (λ go. absurd (true_not_false (sym go ∙ stay))), (λ _. refl))
    ]
