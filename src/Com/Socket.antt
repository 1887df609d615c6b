-- ===== src/Com/Socket.antt =====
-- `connectToPeer`, `listenConnection`, `acceptConnection` and `closeConn` of comSocket.c. What the
-- calls of the system answer is a parameter; a result has the calls that were made, in their order.
use snuffin.Libc.Buffer.{c_string}
use snuffin.Libc.Print.{Bytes}
use snuffin.Common.Int.{eqb_ℤ, ltb_ℤ, ℤ, pos, negsuc}
use snuffin.Common.{◌-◌, ◌^◌, ◌%◌, ◌∷◌, ℕ, if◌then◌else◌, ◌>>=◌, List, Option, none, some, []}
use Prim.Native.String.{String}
use snuffin.Com.Ends.{remove_eol}

pub data Call : Type 0 where
  opens : Call
  looks_up : Bytes → Call
  connects : ℤ → Bytes → ℕ → Call
  binds : ℤ → ℕ → Call
  listens : ℤ → ℤ → Call
  accepts : ℤ → Call
  closes_fd : ℤ → Call

-- `socket`, `gethostbyname`, `connect`, `bind`, `listen` and `accept`. A host that is not known has
-- no address.
pub record Answers : Type 0 where
  pub opened : ℤ
  pub host : Bytes → Option Bytes
  pub connected : ℤ
  pub bound : ℤ
  pub listening : ℤ
  pub accepted : ℤ

-- The process ends with a message of `perror`, or goes on with the `fd` of a connection.
pub data Outcome : Type 0 where
  exits : String → Outcome
  gives : ℤ → Outcome

-- `htons(port)`, as the number that the network has for the port: the `int` is made a `uint16_t`.
unfoldable pub htons : ℤ → ℕ
htons (pos n) = n % 2 ^ 16
htons (negsuc n) = 2 ^ 16 - 1 - n % 2 ^ 16

abbrev pub max_connection_queue : ℤ
max_connection_queue = pos 4

-- From `if (server == NULL)` on.
unfoldable pub connect_to_host : Answers → Option Bytes → Bytes → ℤ → Outcome × List Call
unfolding htons
connect_to_host a none name port = (exits "No such host", opens ∷ looks_up name ∷ [])
connect_to_host a (some at) name port =
    let calls : List Call = opens ∷ looks_up name ∷ connects a.opened at (htons port) ∷ [] in
    if ltb_ℤ a.connected (pos 0) then (exits "ERROR connecting", calls) else (gives a.opened, calls)

-- `addr` is changed by `removeEOL`.
unfoldable pub connect_to_peer : Answers → Bytes → ℤ → Option (Outcome × List Call)
unfolding connect_to_host
connect_to_peer a addr port =
    let rest : Option (Outcome × List Call) = do
      line ← remove_eol addr
      name ← c_string line
      some (connect_to_host a (a.host name) name port)
    in if ltb_ℤ a.opened (pos 0) then some (exits "ERROR opening socket", opens ∷ []) else rest

unfoldable pub listen_connection : Answers → ℤ → Outcome × List Call
unfolding htons
listen_connection a port =
    let binding : List Call = opens ∷ binds a.opened (htons port) ∷ [] in
    let calls : List Call =
      opens ∷ binds a.opened (htons port) ∷ listens a.opened max_connection_queue ∷ [] in
    if eqb_ℤ a.opened (negsuc 0)
    then (exits "socket", opens ∷ [])
    else (if eqb_ℤ a.bound (negsuc 0)
        then (exits "bind", binding)
        else (if eqb_ℤ a.listening (negsuc 0)
            then (exits "listen", calls)
            else (gives a.opened, calls)))

-- `fd` is that of the connection listened to.
unfoldable pub accept_connection : Answers → ℤ → Outcome × List Call
accept_connection a fd =
    (if ltb_ℤ a.accepted (pos 0) then exits "accept" else gives a.accepted, accepts fd ∷ [])

unfoldable pub close_conn : ℤ → List Call
close_conn fd = closes_fd fd ∷ []

-- The port that the process listens to, as far as it does.
unfoldable pub bound_port : List Call → Option ℕ
bound_port [] = none
bound_port (opens ∷ cs) = bound_port cs
bound_port (looks_up name ∷ cs) = bound_port cs
bound_port (connects fd at p ∷ cs) = bound_port cs
bound_port (binds fd p ∷ cs) = some p
bound_port (listens fd n ∷ cs) = bound_port cs
bound_port (accepts fd ∷ cs) = bound_port cs
bound_port (closes_fd fd ∷ cs) = bound_port cs

-- The port that it connects to.
unfoldable pub peer_port : List Call → Option ℕ
peer_port [] = none
peer_port (opens ∷ cs) = peer_port cs
peer_port (looks_up name ∷ cs) = peer_port cs
peer_port (connects fd at p ∷ cs) = some p
peer_port (binds fd p ∷ cs) = peer_port cs
peer_port (listens fd n ∷ cs) = peer_port cs
peer_port (accepts fd ∷ cs) = peer_port cs
peer_port (closes_fd fd ∷ cs) = peer_port cs
