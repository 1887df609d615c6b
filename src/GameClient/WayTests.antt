-- ===== src/GameClient/WayTests.antt =====
-- The theorem on the way of a player to a lobby at a concrete input.
use snuffin.GameClient.Dialogue.{get_information}
use snuffin.Com.Ends.{remove_eol}
use snuffin.Libc.Strtol.{read_int}
use snuffin.Marshalling.Decode.{unmarsh_boolean, unmarsh_server_id}
use snuffin.ComWrapper.Split.{add_string, split}
use snuffin.ComWrapper.Reader.{read_data}
use snuffin.Marshalling.Places.{num_places}
use snuffin.Libc.Buffer.{memcpy, copy_until, c_string, store, sprintf, calloc}
use snuffin.Marshalling.Encode.{marsh_string, marsh_server_id}
use snuffin.Marshalling.Message.{marshalling}
use snuffin.ChildServer.Start.{flag}
use snuffin.GameClient.Way.{game-peer_port}
use snuffin.GameClient.Fixtures.{frame, silence-IsQuiet, watcher}
use snuffin.SuperServer.Lobbies.{lobby_request}
use snuffin.Libc.Print.{show_int}
use snuffin.Com.Transport.{receive_data, received}
use snuffin.Common.Int.{pos, ℤ}
use snuffin.Common.{arith, refl, ◌++◌, ◌+◌, ◌≡◌, codes, ◌∷◌, List, some, [], true}
use snuffin.Com.Socket.{
  max_connection_queue, bound_port, connect_to_peer, htons, peer_port, listen_connection, gives,
  opens, looks_up, connects, binds, listens, Answers, Call,
}
use snuffin.GameClient.Join.{
  play_game, enter_game, hear_address, ask_lobby, goes_on, game, GameInput,
}

-- All goes well, and each host is 127.0.0.1.
abbrev answers : ℤ → Answers
answers fd = record {
  opened = fd;
  host = λ name. some (127 ∷ 0 ∷ 0 ∷ 1 ∷ []);
  connected = pos 0;
  bound = pos 0;
  listening = pos 0;
  accepted = pos 5;
}

abbrev server_calls : List Call
server_calls = opens ∷ binds (pos 3) 5002 ∷ listens (pos 3) max_connection_queue ∷ []

abbrev client_calls : List Call
client_calls = opens ∷ looks_up (codes "srv") ∷ connects (pos 4) (127 ∷ 0 ∷ 0 ∷ 1 ∷ []) 5002 ∷ []

-- The name is being answered, and no password was sent yet.
abbrev morning : GameInput
morning = record {
  frame = frame;
  address = received (lobby_request 5002 ++ 0 ∷ []);
  host = codes "srv\n" ++ 0 ∷ [];
  answers = answers (pos 4);
  input = codes " eva\n";
  known = received (flag true);
  tries = [];
  lobby_rounds = [];
  match_rounds = [];
  unset = pos 0;
}

listened : listen_connection (answers (pos 3)) (pos (5000 + 2)) ≡ (gives (pos 3), server_calls)
unfolding listen_connection htons
listened = refl

begun : game (pos 2) morning watcher ≡ some (client_calls, goes_on)
unfolding game ask_lobby hear_address connect_to_peer marshalling marsh_server_id calloc sprintf
    num_places read_data receive_data split store add_string c_string unmarsh_server_id copy_until
    read_int remove_eol enter_game play_game get_information show_int memcpy marsh_string
    unmarsh_boolean
begun = refl

game-peer_port_example : bound_port server_calls ≡ some 5002
unfolding peer_port show_int
game-peer_port_example =
    game-peer_port (pos 2) 5000 2 1024 (answers (pos 3)) morning watcher 5002 listened refl
      (omega arith) (ground arith) (omega arith) silence-IsQuiet begun refl
