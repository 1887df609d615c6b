-- ===== src/SuperServer/Lobbies.antt =====
-- A client gets the address of its lobby, and each lobby has one process at most.
use snuffin.Structs.{StreamData}
use snuffin.Common.{none, Option, Bool, not, ◌&&◌}
use snuffin.SuperServer.Join.{first_answer}
use snuffin.Game.Valid.{assign-set}
use snuffin.Marshalling.Sizes.{marsh_server_id_lem}
use snuffin.Marshalling.RoundTrip.{unmarsh-marsh_server_id}
use snuffin.ComWrapper.Reader.{Reader}
use snuffin.Marshalling.Fields.{Fits}
use snuffin.ComWrapper.Queue.{read_data-IsPending, IsPending}
use snuffin.Com.Transport.{Incoming}
use snuffin.Marshalling.Tags.{server_id_tag}
use snuffin.Marshalling.Decode.{unmarsh_server_id, Frame}
use snuffin.Marshalling.Message.{stream, marshalling}
use snuffin.Libc.Print.{show_int, Bytes}
use snuffin.Common.{
  inr, get_lt, inl, Bool-cases, drop, ◌∙◌, zero, suc, refl, set, append_assoc, ap, [],
  if◌then◌else◌, ◌++◌, arith, some, ◌≡◌, length, ◌∷◌, ◌^◌, get_elem?, List, ◌<◌, ◌+◌, ℕ,
}
use snuffin.SuperServer.Join.{
  SuperServer, serve_client, free_servers, wait_for_child, direction_message,
}
use snuffin.Common.Int.{negsuc, eqb_ℤ, pos, ℤ, add_int}
use mathlib.Core.Option.{some-injective}

-- The message of a client that wants lobby k.
abbrev pub lobby_request : ℕ → Bytes
lobby_request k = server_id_tag ∷ show_int (pos k)

pub read_lobby :
    (k : ℕ) (frame : Frame) (stale : Bytes) (p : ℤ)
    → k < 2 ^ 31
    → Fits (pos k) frame.num
    → unmarsh_server_id frame (lobby_request k ++ 0 ∷ stale) p ≡ some (1, pos k)
read_lobby k frame stale p small fits =
    let trip =
      unmarsh-marsh_server_id (pos k) p frame stale (omega (arith, small), omega arith) fits in
    let whole : (lobby_request k ++ 0 ∷ []) ++ stale ≡ lobby_request k ++ 0 ∷ stale =
      append_assoc (lobby_request k) (0 ∷ []) stale in
    rw (marsh_server_id_lem (pos k) (omega (arith, small), omega arith), whole) at trip

add_pos : (n k : ℕ) → n + k < 2 ^ 31 → add_int (pos n) (pos k) ≡ some (pos (n + k))
unfolding add_int
add_pos n k h = ground arith

direction_message_lem :
    (n k : ℕ)
    → n + k < 2 ^ 31
    → direction_message n (pos k)
      ≡ some (stream (lobby_request (n + k) ++ 0 ∷ [], pos (length (lobby_request (n + k)) + 1)))
unfolding direction_message marshalling
direction_message_lem n k h =
    rw (add_pos n k h, marsh_server_id_lem (pos (n + k)) (omega (arith, h), omega arith)) refl

abbrev pub direction : ℕ → ℕ → StreamData
direction n k = stream (lobby_request (n + k) ++ 0 ∷ [], pos (length (lobby_request (n + k)) + 1))

-- What a client gets of which a process is made.
abbrev pub given : ℤ → Bool → StreamData → Option StreamData
given child started d = if eqb_ℤ child (negsuc 0) then none else if started then some d else none

first_answer_lem :
    (child : ℤ) (started : Bool) (n k : ℕ)
    → n + k < 2 ^ 31
    → first_answer child started n (pos k) ≡ some (given child started (direction n k))
unfolding first_answer
first_answer_lem child started n k small = elim (Bool-cases (eqb_ℤ child (negsuc 0))) [
  | inl fails ↦ rw (fails) refl
  | inr made ↦ rw (made, direction_message_lem n k small) refl
]

-- A client that asks for lobby k gets the address n + k if the lobby has an entry in the table; if it
-- has none, `fork` is called, and the client gets the address if `fork` succeeds and `initServer`
-- returns in the new process, and nothing otherwise. A process is made exactly when there was no
-- entry and `fork` succeeds; what `fork` gave, also -1, is then entered for that lobby and no other.
-- The array `num` has room for k, the buffer for the message, and the sum is an `int`.
pub serve_client_lem :
    (n k : ℕ) (child v : ℤ) (started : Bool) (frame : Frame) (incoming : Incoming) (buffer : Bytes)
    (ts : List Bytes) (s : SuperServer)
    → IsPending s.reader (lobby_request k ∷ ts)
    → length (lobby_request k) < length buffer
    → Fits (pos k) frame.num
    → n + k < 2 ^ 31
    → get_elem? s.servers k ≡ some v
    → (reader : Reader) × IsPending reader ts
      × (serve_client n child started frame incoming buffer s
          ≡ some (
            (if eqb_ℤ v (pos 0) then given child started (direction n k) else some (direction n k)),
            eqb_ℤ v (pos 0) && not (eqb_ℤ child (negsuc 0)),
            record {
              servers = if eqb_ℤ v (pos 0) then set s.servers k child else s.servers;
              reader = reader;
              join_server = pos k;
            },
          ))
unfolding serve_client
serve_client_lem n k child v started frame incoming buffer ts s waiting_msg room fits small entry =
    let (out, read, hands) =
      read_data-IsPending s.reader (lobby_request k) ts incoming buffer waiting_msg room in
    let got : unmarsh_server_id frame out.bytes s.join_server ≡ some (1, pos k) =
      ap (λ b. unmarsh_server_id frame b s.join_server) hands.bytes_eq
      ∙ read_lobby k frame (drop (length (lobby_request k) + 1) buffer) s.join_server
          (omega (arith, small)) fits in
    (
      out.reader,
      hands.pending,
      elim (Bool-cases (eqb_ℤ v (pos 0))) [
        | inl empty ↦
            rw
              (
                read,
                got,
                entry,
                empty,
                first_answer_lem child started n k small,
                assign-set s.servers k child (get_lt s.servers k entry),
              )
              refl
        | inr running ↦ rw (read, got, entry, running, direction_message_lem n k small) refl
      ],
    )

freed :
    (pid v : ℤ) (servers : List ℤ) (k : ℕ)
    → get_elem? servers k ≡ some v
    → get_elem? (free_servers pid servers) k ≡ some (if eqb_ℤ v pid then pos 0 else v)
unfolding free_servers
freed pid v [] k e = cc
freed pid v (w ∷ ws) zero e =
    ap some (ap (λ u. if eqb_ℤ u pid then pos 0 else u) (some-injective w v e))
freed pid v (w ∷ ws) (suc k) e = freed pid v ws k e

-- When the process with number pid has ended, the lobbies that had it have none, and the others
-- have what they had.
pub wait_for_child_lem :
    (pid v : ℤ) (s : SuperServer) (k : ℕ)
    → get_elem? s.servers k ≡ some v
    → get_elem? (wait_for_child pid s).servers k ≡ some (if eqb_ℤ v pid then pos 0 else v)
unfolding wait_for_child
wait_for_child_lem pid v s k entry = freed pid v s.servers k entry
