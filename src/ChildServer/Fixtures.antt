-- ===== src/ChildServer/Fixtures.antt =====
-- Lobbies on which the theorems on childServer.c are tried.
use snuffin.Com.Transport.{failed}
use snuffin.ChildServer.Login.{string_message}
use snuffin.Common.Int.{pos}
use snuffin.ChildServer.Listen.{new_client}
use snuffin.ComWrapper.Split.{stored}
use snuffin.ChildServer.State.{ready_to_play, ready_play, Client, Db, Memory, Server}
use snuffin.ComWrapper.Reader.{start, Reader}
use snuffin.Common.{
  ◌==◌, length, ◌∷◌, ◌++◌, if◌then◌else◌, codes, [], none, true, Option, replicate, some, List, ℕ,
}
use snuffin.Log.{Log}

abbrev pub client : ℕ → ℕ → ℕ → Client
client con state expecting = record {
  name = some (codes "ana" ++ 0 ∷ []);
  state = state;
  expecting = expecting;
  score = some (pos 5);
  con = con;
}

-- A data base of one name, with no state.
abbrev pub one_user : Db Unit
one_user = record {
  exist_user = λ name d. some (pos (if length name == 3 then 1 else 0), d);
  valid_password = λ name word d. some (pos 1, d);
  get_high_score = λ name d. some (pos 70, d);
  set_high_score = λ name score d. some d;
  create_user = λ name word d. some (pos 0, d);
}

abbrev pub silent : Log
silent = record { connected = true; pid = 4711; sent = [] }

abbrev pub lobby_of : List (Option Client) → Reader → Server Unit
lobby_of cs r = record {
  clients = cs;
  start_game = 0;
  game_board = none;
  reader = r;
  sent = [];
  log = silent;
  db = tt;
}

abbrev pub ready_pair : Server Unit
ready_pair =
    lobby_of
      (some (client 8 ready_play ready_to_play)
        ∷ none
        ∷ some (client 9 ready_play ready_to_play)
        ∷ none
        ∷ [])
      start

-- The name of a new client has arrived, with one message more.
abbrev pub arrived : Reader
arrived = record {
  read_buffer = stored (string_message (codes "ana") ∷ codes "41" ∷ []);
  r_buff_size = 2;
  current_pos = 0;
}

abbrev pub newcomer : Server Unit
newcomer = lobby_of (some (new_client 8) ∷ none ∷ none ∷ none ∷ []) arrived

abbrev pub memory : Memory
memory = record {
  buffer = replicate 1024 0;
  frame = record {
    nombre = replicate 20 0;
    num = replicate 5 0;
    num2 = replicate 5 0;
    num3 = replicate 5 0;
  };
  fresh = λ k. replicate k 0;
  incoming = failed;
}
