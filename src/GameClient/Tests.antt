-- ===== src/GameClient/Tests.antt =====
-- The theorems on client.c at concrete inputs.
use snuffin.GameClient.Mode.{conn_handler-press_rounds, conn_handler, press_rounds, raw, Termios}
use snuffin.Common.Int.{pos}
use snuffin.Common.{true, false}
use snuffin.GameClient.Fixtures.{seat, seats}
use snuffin.Libc.Buffer.{same_bytes, c_string}
use snuffin.Common.{
  arith, refl, replicate, zero, suc, drop, [], set, ap, ◌++◌, ◌∷◌, sym, ◌≡◌, some, codes,
}
use snuffin.Structs.{Player}
use snuffin.Common.Int.{pos}
use snuffin.GameClient.Table.{take_player-IsTable, IsTable}
use snuffin.GameClient.Lobby.{max_word, take_player, Lobby, belongs}
use mathlib.Core.Option.{some-injective}

seats-IsTable : IsTable 0 seats.players
seats-IsTable zero p e =
    let same : seat 0 ≡ p = some-injective (seat 0) p (some-injective (some (seat 0)) (some p) e) in
    sym (ap (λ q. q.num) same)
seats-IsTable (suc zero) p e = cc
seats-IsTable (suc (suc zero)) p e =
    let same : seat 2 ≡ p = some-injective (seat 2) p (some-injective (some (seat 2)) (some p) e) in
    sym (ap (λ q. q.num) same)
seats-IsTable (suc (suc (suc zero))) p e = cc
seats-IsTable (suc (suc (suc (suc j)))) p e = cc

abbrev guest : Player
guest = record { name = codes "eva" ++ 0 ∷ []; num = pos 3; score = pos 9; ready = pos 1 }

take_player-IsTable_example :
    (s' : Lobby) × (take_player guest seats ≡ some s')
    × (s'.players
        ≡ set seats.players 3
            (some (record guest { name = codes "eva" ++ 0 ∷ drop 4 (replicate max_word 0) })))
    × IsTable 0 s'.players
unfolding belongs c_string same_bytes
take_player-IsTable_example =
    take_player-IsTable guest 3 (codes "eva") seats refl refl (omega arith) (omega arith) refl
      seats-IsTable

abbrev cooked : Termios
cooked = record { icanon = true; echo = true; others = true ∷ false ∷ [] }

-- The loop goes round for the second time.
conn_handler-press_rounds_example :
    (conn_handler (pos 4) (press_rounds 2 (record { now = cooked; oldt = cooked }))).1.now
    ≡ raw cooked
conn_handler-press_rounds_example =
    conn_handler-press_rounds (pos 4) 2 (record { now = cooked; oldt = cooked })
