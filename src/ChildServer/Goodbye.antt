-- ===== src/ChildServer/Goodbye.antt =====
-- How `resolveRequest` of childServer.c meets the end of a connection of comFIFO.c.
use snuffin.Game.Board.{max_players}
use snuffin.ChildServer.Leave.{disconnect_lem, to_others, leaving}
use snuffin.Log.{Log}
use snuffin.ComWrapper.Reader.{read_data, Reader}
use snuffin.Com.Ends.{written-close_conn, close_conn, written}
use snuffin.Com.Transport.{received}
use snuffin.ComWrapper.Queue.{read_data-received, IsPending}
use snuffin.Libc.Print.{Bytes}
use snuffin.Common.Int.{ℤ}
use snuffin.Common.{
  ◌++◌, none, set, ◌^◌, refl, ap, ◌∙◌, ◌∷◌, arith, length, ◌<◌, [], some, ◌≡◌, Option, ℕ,
}
use snuffin.ChildServer.State.{client_at, Memory, Server, Client, Db}
use snuffin.ChildServer.Requests.{resolve_request}

-- When a client that has given its name closes its connection, its next request is the end: the
-- others that are there are told that it leaves, its place and no other is free, and nothing is left
-- of what it sent. No message of any client is waiting in the queue then, which all connections
-- share; the buffer has a byte at least, and the process number has at most seven digits.
pub resolve_request-close_conn :
    {D : Type 0} (db : Db D) (n : ℕ) (c : Client) (name : Bytes) (s : Server D) (memory : Memory)
    (fd fd2 : ℤ) (addr1 addr2 : Option Bytes)
    → client_at s.clients n ≡ some c
    → c.name ≡ some name
    → n < max_players
    → s.log.pid < 10 ^ 7
    → IsPending s.reader []
    → memory.incoming ≡ received (written (close_conn fd fd2 addr1 addr2))
    → 0 < length memory.buffer
    → (reader : Reader) × (log : Log) × IsPending reader []
      × (resolve_request db memory n s
          ≡ some (record s {
            clients = set s.clients n none;
            sent = s.sent ++ to_others n (leaving n) 0 s.clients;
            log = log;
            reader = reader;
          }))
unfolding resolve_request
resolve_request-close_conn {D} db n c name s memory fd fd2 addr1 addr2 here named in_lobby pid
      none_left closed room =
    let (out, read, hands) =
      read_data-received s.reader [] [] [] memory.buffer none_left (tt, tt) tt
        (omega (arith, room)) in
    let bytes : memory.incoming ≡ received (0 ∷ []) =
      closed ∙ ap received (written-close_conn fd fd2 addr1 addr2) in
    let got : read_data s.reader memory.incoming memory.buffer ≡ some out =
      ap (λ i. read_data s.reader i memory.buffer) bytes ∙ read in
    let code : out.code ≡ 0 = hands.code_eq in
    let s1 : Server D = record s { reader = out.reader } in
    let (log, left) = disconnect_lem n c s1 here in_lobby pid in
    (out.reader, log, hands.pending, rw (here, got, code) (left ∙ (rw (named) refl)))
