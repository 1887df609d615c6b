-- ===== src/GameClient/PlayTests.antt =====
-- The theorems on the dialogue and the match of client.c at concrete inputs.
use snuffin.GameClient.Editor.{get_pass-edit}
use snuffin.GameClient.Render.{rendered}
use snuffin.GameClient.Lobby.{max_word}
use snuffin.GameClient.Hear.{string_sent, IsQuiet}
use snuffin.GameClient.LogIn.{get_information-ends, strings, refusals, Types}
use snuffin.Common.{drop}
use snuffin.GameClient.Typing.{in_order}
use snuffin.Marshalling.Decode.{Frame}
use snuffin.ChildServer.Start.{flag}
use snuffin.GameClient.Watch.{start_game-ends, board_comes}
use snuffin.Common.Int.{pos}
use snuffin.GameClient.Fixtures.{
  frame, silence-IsQuiet, small_board-CanShow, silence, small_board, watcher, keys,
}
use snuffin.Com.Transport.{received}
use snuffin.Common.{
  length, ℕ, refl, List, replicate, arith, true, none, ◌∷◌, some, codes, ◌≡◌, ◌++◌, map, [],
}
use snuffin.GameClient.Dialogue.{get_information, Talk, skip_spaces, word_from}
use snuffin.GameClient.Typing.{get_pass, edit}
use snuffin.Libc.Print.{Bytes}
use snuffin.GameClient.Loops.{start_game, Session}

get_pass-edit_example :
    (edit [] keys ≡ none → get_pass keys (replicate max_word 0) ≡ some none)
    × ((line : Bytes) (rest : List ℕ)
        → edit [] keys ≡ some (line, rest)
        → (junk : Bytes) × (get_pass keys (replicate max_word 0)
            ≡ some (some (line ++ 0 ∷ junk, rest)))
          × (length (line ++ 0 ∷ junk) ≡ max_word))
get_pass-edit_example = get_pass-edit keys (replicate max_word 0) refl

-- A name, a password with a key taken back, which is wrong, and another one.
abbrev typed : Bytes
typed = codes " eva\nax" ++ 127 ∷ codes "b\nqu\n"

two_lines : Types (drop 3 (skip_spaces typed)) (codes "ab" ∷ codes "qu" ∷ [])
unfolding skip_spaces Types edit in_order
two_lines =
    (_, refl, (ground arith, (ground arith, tt)), (_, refl, (ground arith, (ground arith, tt)), tt))

get_information-ends_example :
    (t' : Talk) × (get_information typed
        (received (flag true))
        (refusals (codes "ab" ∷ []) ++ received (flag true) ∷ [])
        silence
      ≡ some (some t'))
    × IsQuiet 1024 t'
    × (t'.sent
        ≡ []
          ++ string_sent (codes "eva")
            ∷ (strings (codes "ab" ∷ []) ++ string_sent (codes "qu") ∷ []))
unfolding word_from skip_spaces
get_information-ends_example =
    get_information-ends typed (codes "eva") true (codes "ab" ∷ []) (codes "qu") [] 1024 silence
      refl (omega arith) (omega arith) (ground arith, (ground arith, (ground arith, tt))) two_lines
      (omega arith) silence-IsQuiet

start_game-ends_example :
    (s' : Session) × (start_game
        (map (board_comes 2) ((frame, small_board) ∷ []) ++ (frame, received (flag true)) ∷ [])
        (pos 0)
        watcher
      ≡ some (some (pos 1, s')))
    × (s'.screen
        ≡ [] ++ map (λ (p : Frame × List Bytes). rendered 2 p.1) ((frame, small_board) ∷ []))
start_game-ends_example =
    start_game-ends 2 1024 ((frame, small_board) ∷ []) frame true [] (pos 0) watcher (omega arith)
      (omega arith) (omega arith) silence-IsQuiet (small_board-CanShow, tt)
