-- ===== src/SuperServer/Join.antt =====
-- The loop of `main` and `waitForChild` of superServer.c. The processes of the system are a
-- parameter.
use snuffin.Common.{not}
use snuffin.Marshalling.Tags.{server_id_tag}
use snuffin.Marshalling.Message.{server_id, marshalling}
use snuffin.Libc.Print.{Bytes}
use snuffin.Game.Board.{assign}
use snuffin.Com.Transport.{Incoming}
use snuffin.Structs.{StreamData}
use snuffin.Marshalling.Decode.{unmarsh_server_id, Frame}
use snuffin.ComWrapper.Reader.{read_data, Reader}
use snuffin.Common.{
  false, some, none, [], Bool, get_elem?, ◌>>=◌, if◌then◌else◌, ◌∷◌, Option, ℕ, List,
}
use snuffin.Common.Int.{add_int, negsuc, eqb_ℤ, pos, ℤ}

abbrev pub max_lobby : ℕ
max_lobby = 10

-- The globals of the process, and the local variable `joinServer`, which keeps its value from one
-- client to the next. A lobby without a process has 0.
pub record SuperServer : Type 0 where
  pub servers : List ℤ
  pub reader : Reader
  pub join_server : ℤ

-- `servers[joinServer]`
unfoldable pub server_at : List ℤ → ℤ → Option ℤ
server_at servers (pos k) = get_elem? servers k
server_at servers (negsuc k) = none

unfoldable pub set_server : List ℤ → ℤ → ℤ → Option (List ℤ)
set_server servers (pos k) v = assign servers k v
set_server servers (negsuc k) v = none

-- The message with the address of the lobby, which either the super server or the new process of
-- the lobby sends.
unfoldable pub direction_message : ℕ → ℤ → Option StreamData
direction_message n k = do
  direction ← add_int (pos n) k
  marshalling [] (server_id direction) server_id_tag

-- What a new process sends: nothing when `fork` has failed, or when `initServer` ends the process.
unfoldable pub first_answer : ℤ → Bool → ℕ → ℤ → Option (Option StreamData)
unfolding direction_message
first_answer child started n k =
    let answer = direction_message n k >>= λ d. some (if started then some d else none) in
    if eqb_ℤ child (negsuc 0) then some none else answer

-- Once it is known which lobby the client wants. `child` is what `fork` returns to the super server,
-- -1 when it fails, which is not asked; `started` says whether `initServer` returns in the new
-- process.
unfoldable pub answer_client :
    ℕ → ℤ → Bool → SuperServer → Option (Option StreamData × Bool × SuperServer)
unfolding server_at set_server direction_message first_answer
answer_client n child started s = do
  running ← server_at s.servers s.join_server
  let made = not (eqb_ℤ child (negsuc 0))
  let fresh = first_answer child started n s.join_server >>= λ d.
      set_server s.servers s.join_server child >>= λ servers.
      some (d, made, record s { servers = servers })
  let old = direction_message n s.join_server >>= λ d. some (some d, false, s)
  if eqb_ℤ running (pos 0) then fresh else old

-- One client: the message that it gets, if any, whether a process was made for it, and the state
-- after. `readData` and `unmarshServerId` are not asked whether they succeeded. `buffer` is what the
-- buffer held before.
unfoldable pub serve_client :
    ℕ
    → ℤ
    → Bool
    → Frame
    → Incoming
    → Bytes
    → SuperServer
    → Option (Option StreamData × Bool × SuperServer)
unfolding answer_client
serve_client n child started frame incoming buffer s = do
  got ← read_data s.reader incoming buffer
  (res, k) ← unmarsh_server_id frame got.bytes s.join_server
  answer_client n child started (record s { reader = got.reader; join_server = k })

-- A process has ended: its lobby can be made again.
unfoldable pub free_servers : ℤ → List ℤ → List ℤ
free_servers pid [] = []
free_servers pid (v ∷ servers) = (if eqb_ℤ v pid then pos 0 else v) ∷ free_servers pid servers

unfoldable pub wait_for_child : ℤ → SuperServer → SuperServer
unfolding free_servers
wait_for_child pid s = record s { servers = free_servers pid s.servers }
