-- ===== src/ChildServer/Requests.antt =====
-- `resolveRequest` of childServer.c and the functions that it calls, by what is expected of the
-- client. The memory of a message is the receiver's buffer; `size` is the length of the message.
use snuffin.Log.{log_error, log_warning}
use snuffin.Game.Board.{update_movement_direction}
use snuffin.ChildServer.Notify.{
  notify_existing_players, notify_new_player, disconnect, send_game_start,
}
use snuffin.Libc.Buffer.{c_string}
use snuffin.ComWrapper.Reader.{read_data}
use snuffin.Common.Int.{negsuc, eqb_ℤ, pos, ℤ}
use snuffin.Common.{
  none, [], suc, ◌++◌, ◌==◌, some, false, ltb, ◌>>=◌, if◌then◌else◌, ◌∷◌, true, ◌&&◌, Bool, Option,
  ℕ, List,
}
use snuffin.Marshalling.Decode.{unmarsh_boolean, unmarsh_string, unmarsh_point, Frame}
use snuffin.Libc.Print.{Bytes}
use snuffin.ChildServer.State.{
  movement, with_log, put_client, user, new_password, ready_play, send_boolean, password, waiting,
  client_at, Memory, ready_to_play, Server, Client, Db,
}

-- `clients[i]->state = …` and the like.
abbrev pub set_expecting : ℕ → Client → Client
set_expecting e c = record c { expecting = e }

abbrev pub let_wait : Client → Client
let_wait c = record c { expecting = ready_to_play; state = waiting }

-- `start` and `nPlayers` of `checkGameStart`, over the clients.
unfoldable pub all_ready : List (Option Client) → Bool
all_ready [] = true
all_ready (none ∷ cs) = all_ready cs
all_ready (some c ∷ cs) = c.state == ready_play && all_ready cs

unfoldable pub count_players : List (Option Client) → ℕ
count_players [] = 0
count_players (none ∷ cs) = count_players cs
count_players (some c ∷ cs) = suc (count_players cs)

module _ {D : Type 0} where
  unfoldable pub check_game_start : Server D → Option (Server D)
  unfolding all_ready count_players
  check_game_start s =
      let ready = all_ready s.clients && ltb 1 (count_players s.clients) in
      if ready then send_game_start (record s { start_game = 1 }) else some s

  abbrev pub change : ℕ → (Client → Client) → Server D → Option (Server D)
  change n f s = client_at s.clients n >>= λ c. some (put_client n (some (f c)) s)

  -- A message to client n: TRUE or FALSE.
  abbrev pub answer : ℕ → Bool → Server D → Option (Server D)
  answer n value s = client_at s.clients n >>= λ c. send_boolean c.con value s

  -- The client says whether it is ready.
  unfoldable pub resolve_ready : Bytes → ℕ → Server D → Option (Server D)
  resolve_ready bytes n s = do
    (res, value) ← unmarsh_boolean bytes (pos 0)
    let got_ready = change n (λ c. record c { state = ready_play }) s >>= λ s.
        notify_new_player n s >>= λ s. check_game_start s
    let not_ready = change n (λ c. record c { state = waiting }) s >>= λ s. notify_new_player n s
    if res == 0 then some s else if eqb_ℤ value (pos 0) then not_ready else got_ready

  -- The client turns its snake.
  unfoldable pub resolve_movement : Frame → Bytes → ℕ → Server D → Option (Server D)
  resolve_movement frame bytes n s = do
    (res, p) ← unmarsh_point frame bytes (record { x = pos 0; y = pos 0 })
    let moved =
        update_movement_direction n p s.game_board >>= λ b. some (record s { game_board = some b })
    if res == 0 then some s else moved

module _ {D : Type 0} (db : Db D) where
  -- The result of `validateUser` is the code -1 or 0.
  unfoldable pub known_user : Bytes → ℕ → Server D → Option (Server D)
  known_user name n s = do
    (score, d) ← db.get_high_score name s.db
    let s : Server D = record s { db = d }
    s ← answer n true s
    change n
        (λ c. record c { expecting = password; score = some score; name = some (name ++ 0 ∷ []) }) s

  unfoldable pub unknown_user : Bytes → ℕ → Server D → Option (Server D)
  unknown_user name n s = do
    s ← answer n false s
    change n
        (λ c. record c {
          expecting = new_password;
          score = some (pos 0);
          name = some (name ++ 0 ∷ []);
        })
        s

  unfoldable pub take_user : Bytes → ℕ → Server D → Option (ℤ × Server D)
  unfolding known_user unknown_user
  take_user str n s = do
    name ← c_string str
    (e, d) ← db.exist_user name s.db
    let s : Server D = record s { db = d }
    s ← (if eqb_ℤ e (pos 0) then unknown_user name n s else known_user name n s)
    some (pos 0, s)

  unfoldable pub validate_user : Memory → Bytes → ℕ → ℕ → Server D → Option (ℤ × Server D)
  unfolding take_user
  validate_user memory bytes size n s = do
    (r, str) ← unmarsh_string memory.frame bytes (memory.fresh size)
    let invalid = with_log (log_warning "Invalid String received") s >>= λ s. some (negsuc 0, s)
    if r == 0 then invalid else take_user str n s

  -- What `unmarshString` returns is not looked at: a message with another tag leaves `str` as it was.
  unfoldable pub validate_password : Memory → Bytes → ℕ → ℕ → Server D → Option (ℕ × Server D)
  validate_password memory bytes size n s = do
    (r, str) ← unmarsh_string memory.frame bytes (memory.fresh size)
    c ← client_at s.clients n
    name ← c.name
    name ← c_string name
    word ← c_string str
    (valid, d) ← db.valid_password name word s.db
    let s : Server D = record s { db = d }
    let accepted = change n let_wait s >>= λ s. answer n true s >>= λ s. some (1, s)
    let refused = answer n false s >>= λ s. some (0, s)
    if eqb_ℤ valid (pos 0) then refused else accepted

  unfoldable pub resolve_password : Memory → Bytes → ℕ → ℕ → Server D → Option (Server D)
  unfolding validate_password
  resolve_password memory bytes size n s = do
    (res, s) ← validate_password memory bytes size n s
    if res == 1 then (notify_new_player n s >>= λ s. notify_existing_players n s) else some s

  -- The password of a new user is unmarshalled into four bytes, the size of an `int`.
  unfoldable pub create_account : Bytes → ℕ → Server D → Option (Server D)
  create_account str n s = do
    c ← client_at s.clients n
    name ← c.name
    name ← c_string name
    word ← c_string str
    (res, d) ← db.create_user name word s.db
    let s : Server D = record s { db = d }
    let created = change n let_wait s >>= λ s. answer n true s
    s ← (if eqb_ℤ res (pos 0) then created else answer n false s)
    s ← notify_new_player n s
    notify_existing_players n s

  unfoldable pub resolve_new_password : Memory → Bytes → ℕ → Server D → Option (Server D)
  unfolding create_account
  resolve_new_password memory bytes n s = do
    (res, str) ← unmarsh_string memory.frame bytes (memory.fresh 4)
    if res == 0 then some s else create_account str n s

  unfoldable pub resolve_expecting : Memory → Bytes → ℕ → ℕ → ℕ → Server D → Option (Server D)
  unfolding validate_user resolve_password resolve_new_password resolve_ready resolve_movement
  resolve_expecting memory bytes size expecting n s =
      if expecting == user
      then (validate_user memory bytes size n s >>= λ (r, s). some s)
      else if expecting == password
      then resolve_password memory bytes size n s
      else if expecting == new_password
      then resolve_new_password memory bytes n s
      else if expecting == ready_to_play
      then resolve_ready bytes n s
      else if expecting == movement
      then resolve_movement memory.frame bytes n s
      else with_log (log_error "Invalid expecting state") s

  unfoldable pub resolve_request : Memory → ℕ → Server D → Option (Server D)
  unfolding resolve_expecting
  resolve_request memory n s = do
    c ← client_at s.clients n
    got ← read_data s.reader memory.incoming memory.buffer
    let s : Server D = record s { reader = got.reader }
    if got.code == 0
        then disconnect n s
        else resolve_expecting memory got.bytes got.size c.expecting n s
