-- ===== src/SuperServer/Tests.antt =====
-- The theorems on superServer.c at concrete inputs.
use snuffin.Common.{sym, get_elem?, zero, suc, true}
use mathlib.Core.Option.{some-injective}
use snuffin.SuperServer.Turns.{
  InStep, none_yet, and_then, forks, ends, Runs, Living, entering, leaving,
}
use snuffin.SuperServer.Steps.{Runs-InStep}
use snuffin.Common.Int.{negsuc, pos_part}
use snuffin.SuperServer.Lobbies.{given, direction}
use snuffin.Common.{false, ap, not, ◌&&◌}
use snuffin.Com.Transport.{failed}
use snuffin.SuperServer.Lobbies.{serve_client_lem, lobby_request}
use snuffin.ComWrapper.Queue.{IsPending}
use snuffin.ComWrapper.Split.{stored}
use snuffin.Common.Int.{ℤ, eqb_ℤ, pos}
use snuffin.SuperServer.Join.{max_lobby, wait_for_child, serve_client, SuperServer}
use snuffin.Libc.Print.{show_int}
use snuffin.Common.{
  ℕ, length-replicate, arith, set, refl, if◌then◌else◌, some, ◌≡◌, [], ◌∷◌, replicate,
}
use snuffin.ComWrapper.Reader.{Reader}
use snuffin.Marshalling.Decode.{Frame}

abbrev wanted : Reader
wanted = record { read_buffer = stored (lobby_request 3 ∷ []); r_buff_size = 1; current_pos = 0 }

-- Lobby 2 has a process.
abbrev busy : SuperServer
busy = record {
  servers = pos 0 ∷ pos 0 ∷ pos 99 ∷ pos 0 ∷ [];
  reader = wanted;
  join_server = pos 0;
}

abbrev zeros : Frame
zeros = record {
  nombre = replicate 20 0;
  num = replicate 5 0;
  num2 = replicate 5 0;
  num3 = replicate 5 0;
}

serve_client_lem_example :
    (reader : Reader) × IsPending reader []
    × (serve_client 42000 (pos 777) true zeros failed (replicate 64 0) busy
        ≡ some (
          (if eqb_ℤ (pos 0) (pos 0)
              then given (pos 777) true (direction 42000 3)
              else some (direction 42000 3)),
          eqb_ℤ (pos 0) (pos 0) && not (eqb_ℤ (pos 777) (negsuc 0)),
          record {
            servers = if eqb_ℤ (pos 0) (pos 0) then set busy.servers 3 (pos 777) else busy.servers;
            reader = reader;
            join_server = pos 3;
          },
        ))
unfolding show_int
serve_client_lem_example =
    serve_client_lem 42000 3 (pos 777) (pos 0) true zeros failed (replicate 64 0) [] busy
      ([], refl, refl, refl, ground arith) (omega (arith, length-replicate {A = ℕ} 64 0))
      (ground arith) (omega arith) refl

-- Ten lobbies without a process, and a client that wants lobby 3.
abbrev opening : SuperServer
opening = record { servers = replicate max_lobby (pos 0); reader = wanted; join_server = pos 0 }

abbrev nobody : Living
nobody k q = false

abbrev one_lobby : Reader → SuperServer
one_lobby r = record { servers = set opening.servers 3 (pos 777); reader = r; join_server = pos 3 }

served :
    (r : Reader) × (serve_client 42000 (pos 777) true zeros failed (replicate 64 0) opening
      ≡ some (some (direction 42000 3), true, one_lobby r))
unfolding show_int
served =
    let (r, pending, e) =
      serve_client_lem 42000 3 (pos 777) (pos 0) true zeros failed (replicate 64 0) [] opening
        ([], refl, refl, refl, ground arith) (omega (arith, length-replicate {A = ℕ} 64 0))
        (ground arith) (omega arith) refl in
    (r, e)

all_free : (n i : ℕ) (v : ℤ) → get_elem? (replicate n (pos 0)) i ≡ some v → v ≡ pos 0
all_free zero i v e = cc
all_free (suc n) zero v e = sym (some-injective _ _ e)
all_free (suc n) (suc i) v e = all_free n i v e

opening-InStep : InStep (opening, nobody)
opening-InStep = record {
  numbered = λ k q lives. cc;
  entered = λ k q lives. cc;
  alive = λ k q e. ground (arith, ap pos_part (all_free max_lobby k (pos (suc q)) e));
}

first_turn : Runs (opening, nobody) (one_lobby served.0, entering true 3 777 nobody)
first_turn =
    and_then none_yet
      (forks 42000 3 777 true zeros failed (replicate 64 0) (omega arith) served.1 refl)

-- A process is made for lobby 3, and another process number ends.
Runs-InStep_example :
    InStep (wait_for_child (pos 776) (one_lobby served.0), leaving 776 (entering true 3 777 nobody))
Runs-InStep_example = Runs-InStep (and_then first_turn (ends 776 (omega arith))) opening-InStep
