-- ===== src/Com/Tests.antt =====
-- The theorem on comFIFO.c at a concrete input.
use snuffin.Libc.Buffer.{c_string, memcpy, sprintf}
use snuffin.Structs.{StreamData}
use snuffin.Com.Ends.{
  Ends, accept_connection-connect_to_peer, swapped, connect_to_peer, accept_connection,
}
use snuffin.Com.Transport.{received}
use snuffin.Common.Int.{pos}
use snuffin.Common.{true, [], drop, ◌∷◌, ◌++◌, codes, refl, arith, some, ◌≡◌, replicate}
use snuffin.Com.Fifo.{cut_line_end, server_path, client_path, hello}
use snuffin.Libc.Print.{show_int, Bytes}

abbrev fresh : Bytes
fresh = replicate 32 7

abbrev message : StreamData
message = record { bytes = some (codes "@4711" ++ 0 ∷ drop 6 fresh); size = pos 5 }

abbrev client_ends : Ends
client_ends = record { fd = codes "/tmp/client4711r"; fd2 = codes "/tmp/client4711w" }

connected :
    connect_to_peer (codes "srv\n" ++ 0 ∷ []) (pos 3) fresh true (pos 4711)
    ≡ some (some (codes "srv3", (message, client_ends)))
unfolding connect_to_peer client_path server_path hello show_int sprintf memcpy c_string
    cut_line_end
connected = refl

accept_connection-connect_to_peer_example :
    accept_connection (received (codes "@4711")) fresh ≡ some (swapped client_ends)
unfolding show_int
accept_connection-connect_to_peer_example =
    accept_connection-connect_to_peer (codes "srv\n" ++ 0 ∷ []) fresh fresh (codes "srv3")
      (codes "@4711" ++ 0 ∷ drop 6 fresh) (pos 3) (pos 4711) message client_ends
      (omega arith, omega arith) (omega arith) (omega arith) refl connected refl
