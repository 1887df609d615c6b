-- ===== src/Com/SocketTests.antt =====
-- The theorem on comSocket.c at a concrete input.
use snuffin.Libc.Buffer.{c_string}
use snuffin.Com.Ends.{remove_eol}
use snuffin.Common.Int.{pos, ℤ}
use snuffin.Common.{ℕ, arith, refl, ◌++◌, ◌+◌, codes, ◌≡◌, ◌∷◌, List, some, []}
use snuffin.Com.Socket.{
  max_connection_queue, bound_port, connect_to_host, htons, connect_to_peer, listen_connection,
  peer_port, gives, opens, looks_up, connects, binds, listens, Answers, Call,
}
use snuffin.Com.Ports.{peer_port-bound_port}

-- All goes well, and each host is 127.0.0.1.
abbrev answers : ℤ → Answers
answers fd = record {
  opened = fd;
  host = λ name. some (127 ∷ 0 ∷ 0 ∷ 1 ∷ []);
  connected = pos 0;
  bound = pos 0;
  listening = pos 0;
  accepted = pos 5;
}

abbrev server_calls : List Call
server_calls = opens ∷ binds (pos 3) 1 ∷ listens (pos 3) max_connection_queue ∷ []

abbrev client_calls : List Call
client_calls = opens ∷ looks_up (codes "srv") ∷ connects (pos 4) (127 ∷ 0 ∷ 0 ∷ 1 ∷ []) 1 ∷ []

-- The ports wrap around.
listened : listen_connection (answers (pos 3)) (pos (65530 + 7)) ≡ (gives (pos 3), server_calls)
unfolding listen_connection htons
listened = refl

reached :
    connect_to_peer (answers (pos 4)) (codes "srv\n" ++ 0 ∷ []) (pos (65530 + 7))
    ≡ some (gives (pos 4), client_calls)
unfolding connect_to_peer connect_to_host htons remove_eol c_string
reached = refl

peer_port-bound_port_example :
    (peer_port client_calls ≡ bound_port server_calls → ◌≡◌ {A = ℕ} 7 7)
    × (◌≡◌ {A = ℕ} 7 7 → peer_port client_calls ≡ bound_port server_calls)
peer_port-bound_port_example =
    peer_port-bound_port 65530 7 7 (answers (pos 3)) (answers (pos 4)) (codes "srv\n" ++ 0 ∷ [])
      (omega arith) (omega arith) listened reached
