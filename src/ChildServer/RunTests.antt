-- ===== src/ChildServer/RunTests.antt =====
-- The theorems on the threads of childServer.c at concrete inputs.
use snuffin.ChildServer.Leave.{to_others, leaving}
use snuffin.Log.{Log}
use snuffin.Common.{◌++◌, set}
use snuffin.Database.Lobby.{lobby_db}
use snuffin.Database.Queries.{Sqlite}
use snuffin.Database.Requests.{Shared}
use snuffin.ComWrapper.Split.{stored}
use snuffin.ChildServer.Accounts.{resolve_request-long_password}
use snuffin.ChildServer.Goodbye.{resolve_request-close_conn}
use snuffin.Com.Ends.{close_conn, written}
use snuffin.Com.Transport.{received}
use snuffin.ComWrapper.Queue.{IsPending}
use snuffin.ChildServer.Lobby.{resolves, listens, none_yet, and_then, Runs}
use snuffin.ChildServer.Start.{flag}
use snuffin.ChildServer.Protocol.Requests.{resolve_request-Change}
use snuffin.Game.Board.{assign}
use snuffin.Common.Int.{pos}
use snuffin.ChildServer.Requests.{resolve_request}
use snuffin.ComWrapper.Reader.{start, Reader}
use snuffin.ChildServer.Fixtures.{ready_pair, arrived, memory, one_user, client, lobby_of}
use snuffin.Log.{connect_log_server, send_log, log_msg}
use snuffin.Libc.Print.{show_int}
use snuffin.ChildServer.Lobby.Safe.{Runs-IsSafe, IsSafe}
use snuffin.ChildServer.Login.{string_message, resolve_request-user, named}
use snuffin.ChildServer.Match.{end_game}
use snuffin.ChildServer.Protocol.{Change}
use snuffin.ChildServer.State.{
  new_password, logging, ready_to_play, ready_play, Memory, movement, playing, password, Client,
  Server, client_at,
}
use snuffin.ChildServer.Verdict.{end_game-unnamed, end_game-lobby_db}
use snuffin.Common.{
  ℕ, replicate, length-replicate, arith, refl, true, [], ◌∷◌, false, none, ◌≡◌, codes, some, Option,
  List,
}
use snuffin.ChildServer.Listen.{
  new_listener, listen_and_resolve, scan_clients, new_client, init_server, listen_round, Listener,
}

-- A lobby whose process has no queue for its log.
abbrev quiet : List (Option Client) → Reader → Server Unit
quiet cs r = record (lobby_of cs r) { log = record { connected = false; pid = 4711; sent = [] } }

abbrev joined : Server Unit
joined = quiet (some (new_client 8) ∷ none ∷ none ∷ none ∷ []) arrived

-- The name of the newcomer is known.
abbrev known : List (Option Client)
known = some (named (codes "ana") password (pos 70) (new_client 8)) ∷ none ∷ none ∷ none ∷ []

abbrev welcomed : Reader → Server Unit
welcomed r = record (quiet known r) { sent = (8, flag true) ∷ [] }

first_reply : (r : Reader) × (resolve_request one_user memory 0 joined ≡ some (welcomed r))
unfolding client_at show_int
first_reply =
    let (r, pending, e) =
      resolve_request-user one_user 0 (new_client 8) joined (codes "ana") (codes "41" ∷ []) memory
        refl refl refl refl ([], refl, refl, refl, ground arith)
        (omega (arith, length-replicate {A = ℕ} 1024 0)) (λ k. length-replicate k 0) (ground arith)
        (ground arith) (omega arith) in
    (r, e)

resolve_request-Change_example : Change 0 joined.clients known
resolve_request-Change_example = resolve_request-Change one_user memory 0 joined first_reply.1

abbrev one_left : Listener
one_left = record { n_players = 1; next_empty = 1 }

-- A client connects, and gives its name.
first_turns :
    Runs one_user
      (new_listener, quiet (replicate 4 none) arrived)
      (one_left, welcomed first_reply.0)
unfolding listen_round log_msg send_log assign scan_clients listen_and_resolve
first_turns =
    and_then (and_then none_yet (listens {s' = joined} 8 refl))
      (resolves memory (some 0) first_reply.1)

Runs-IsSafe_example : IsSafe (one_left, welcomed first_reply.0)
unfolding init_server log_msg send_log connect_log_server
Runs-IsSafe_example = Runs-IsSafe one_user false (quiet [] arrived) refl first_turns

-- The program's data base, of one player.
abbrev scores : Sqlite Unit
scores = record {
  column_int = λ sql column d. pos 1;
  column_text = λ sql column d. some (codes "clave");
  exec = λ sql d. (0, d);
}

abbrev last_one : Server (Shared Unit)
last_one = record {
  clients = some (client 8 playing movement) ∷ none ∷ none ∷ none ∷ [];
  start_game = 1;
  game_board = none;
  reader = start;
  sent = [];
  log = record { connected = false; pid = 4711; sent = [] };
  db = (replicate 1024 0, tt);
}

end_game-lobby_db_example : end_game (lobby_db scores) last_one ≡ none
end_game-lobby_db_example = end_game-lobby_db scores last_one

end_game-unnamed_example : end_game one_user (quiet (none ∷ some (new_client 8) ∷ []) start) ≡ none
unfolding client_at
end_game-unnamed_example =
    end_game-unnamed one_user 1 (new_client 8) (quiet (none ∷ some (new_client 8) ∷ []) start) refl
      refl

abbrev last_words : Memory
last_words = record memory { incoming = received (written (close_conn (pos 5) (pos 6) none none)) }

resolve_request-close_conn_example :
    (reader : Reader) × (log : Log) × IsPending reader []
    × (resolve_request one_user last_words 2 ready_pair
        ≡ some (record ready_pair {
          clients = set ready_pair.clients 2 none;
          sent = ready_pair.sent ++ to_others 2 (leaving 2) 0 ready_pair.clients;
          log = log;
          reader = reader;
        }))
unfolding client_at
resolve_request-close_conn_example =
    resolve_request-close_conn one_user 2 (client 9 ready_play ready_to_play)
      (codes "ana" ++ 0 ∷ []) ready_pair last_words (pos 5) (pos 6) none none refl refl
      (omega arith) (omega arith) refl refl (omega (arith, length-replicate {A = ℕ} 1024 0))

-- A password of four bytes has arrived.
abbrev newbie : Server Unit
newbie = lobby_of (some (client 8 logging new_password) ∷ none ∷ none ∷ none ∷ []) (record {
  read_buffer = stored (string_message (codes "1234") ∷ []);
  r_buff_size = 1;
  current_pos = 0;
})

resolve_request-long_password_example : resolve_request one_user memory 0 newbie ≡ none
unfolding client_at show_int
resolve_request-long_password_example =
    resolve_request-long_password one_user 0 (client 8 logging new_password) newbie (codes "1234")
      [] memory refl refl ([], refl, refl, refl, ground arith)
      (omega (arith, length-replicate {A = ℕ} 1024 0)) (λ k. length-replicate k 0) (ground arith)
      (ground arith) (omega arith) (omega arith)
