-- ===== src/Marshalling/Sizes.antt =====
-- The `marsh…` functions write the text of the message and its final 0 into an array of just that
-- size, and report that size.
use snuffin.Structs.{Point, Player}
use snuffin.Marshalling.Places.{num_places-eq, num_places}
use snuffin.Marshalling.Tags.{
  sep, board_tag, string_tag, player_tag, boolean_tag, point_tag, server_id_tag,
}
use snuffin.Common.Int.{add_int, pos, IsInt, ℤ}
use snuffin.Common.{
  ◌∙◌, ap, ◌-◌, length-append, ◌^◌, ◌<◌, arith, refl, ℕ, ◌+◌, some, ◌≡◌, length, [], ◌∷◌, ◌++◌,
}
use snuffin.Libc.Buffer.{sprintf-exact, c_string, store_middle, store, calloc}
use snuffin.Libc.Print.{show_int, Bytes}
use snuffin.Marshalling.Encode.{
  player_fields, marsh_player, marsh_point, marsh_string, marsh_boolean, tag_text, marsh_server_id,
}

-- The store of the final 0 changes nothing: `sprintf` has written it.
ends : (text : Bytes) → store (text ++ 0 ∷ []) (length text + 1 - 1) 0 ≡ some (text ++ 0 ∷ [])
ends text = ap (λ k. store (text ++ 0 ∷ []) k 0) (omega arith) ∙ store_middle text 0 0 []

server_id_tag_text : tag_text server_id_tag ≡ server_id_tag ∷ []
unfolding show_int
server_id_tag_text = refl

boolean_tag_text : tag_text boolean_tag ≡ boolean_tag ∷ []
unfolding show_int
boolean_tag_text = refl

point_tag_text : tag_text point_tag ≡ point_tag ∷ []
unfolding show_int
point_tag_text = refl

string_tag_text : tag_text string_tag ≡ string_tag ∷ []
unfolding show_int
string_tag_text = refl

player_tag_text : tag_text player_tag ≡ player_tag ∷ []
unfolding show_int
player_tag_text = refl

pub board_tag_text : tag_text board_tag ≡ board_tag ∷ []
unfolding show_int
board_tag_text = refl

-- A message of this text fills its array.
abbrev pub Encoded : Bytes → Bytes × ℕ
Encoded text = (text ++ 0 ∷ [], length text + 1)

pub marsh_server_id_lem :
    (n : ℤ) → IsInt n → marsh_server_id n ≡ some (Encoded (server_id_tag ∷ show_int n))
unfolding marsh_server_id calloc
marsh_server_id_lem n h =
    let size : 1 + num_places n + 1 ≡ length (server_id_tag ∷ show_int n) + 1 =
      omega (arith, num_places-eq n h) in
    rw (server_id_tag_text, sprintf-exact (server_id_tag ∷ show_int n) _ size, size)

pub marsh_boolean_lem :
    (n : ℤ) → IsInt n → marsh_boolean n ≡ some (Encoded (boolean_tag ∷ show_int n))
unfolding marsh_boolean calloc
marsh_boolean_lem n h =
    let size : 1 + num_places n + 1 ≡ length (boolean_tag ∷ show_int n) + 1 =
      omega (arith, num_places-eq n h) in
    rw (boolean_tag_text, sprintf-exact (boolean_tag ∷ show_int n) _ size, size)

pub marsh_string_lem :
    (s text : Bytes)
    → c_string s ≡ some text
    → length text < 2 ^ 31
    → marsh_string s ≡ some (Encoded (string_tag ∷ show_int (pos (length text)) ++ sep ∷ text))
unfolding marsh_string calloc
marsh_string_lem s text e h =
    let whole : Bytes = string_tag ∷ show_int (pos (length text)) ++ sep ∷ text in
    let size : 1 + 1 + 1 + length text + num_places (pos (length text)) ≡ length whole + 1 = omega (
      arith,
      num_places-eq (pos (length text)) (h, omega arith),
      length-append (show_int (pos (length text))) (sep ∷ text),
    ) in
    rw (e, string_tag_text, sprintf-exact whole _ size, size, ends whole)

-- The coordinates as they are printed, moved by the code of '0'.
pub marsh_point_lem :
    (s : Point) (a b : ℤ)
    → add_int s.x (pos b'0') ≡ some a
    → add_int s.y (pos b'0') ≡ some b
    → IsInt a
    → IsInt b
    → marsh_point s ≡ some (Encoded (point_tag ∷ show_int a ++ sep ∷ show_int b))
unfolding marsh_point calloc
marsh_point_lem s a b ea eb ha hb =
    let whole : Bytes = point_tag ∷ show_int a ++ sep ∷ show_int b in
    let size : 1 + 1 + 1 + num_places a + num_places b ≡ length whole + 1 = omega (
      arith,
      num_places-eq a ha,
      num_places-eq b hb,
      length-append (show_int a) (sep ∷ show_int b),
    ) in
    rw (ea, eb, point_tag_text, sprintf-exact whole _ size, size, ends whole)

pub marsh_player_lem :
    (p : Player) (name : Bytes)
    → c_string p.name ≡ some name
    → IsInt p.num
    → IsInt p.score
    → IsInt p.ready
    → marsh_player p ≡ some (Encoded (player_tag ∷ player_fields name p))
unfolding marsh_player calloc
marsh_player_lem p name e hn hs hr =
    let whole : Bytes = player_tag ∷ player_fields name p in
    let size : 1
          + length name
          + 1
          + num_places p.num
          + 1
          + num_places p.score
          + 1
          + num_places p.ready
          + 1
        ≡ length whole + 1 =
      omega (
        arith,
        num_places-eq p.num hn,
        num_places-eq p.score hs,
        num_places-eq p.ready hr,
        length-append name
            (sep ∷ (show_int p.num ++ sep ∷ (show_int p.score ++ sep ∷ show_int p.ready))),
        length-append (show_int p.num) (sep ∷ (show_int p.score ++ sep ∷ show_int p.ready)),
        length-append (show_int p.score) (sep ∷ show_int p.ready),
      ) in
    rw (e, player_tag_text, sprintf-exact whole _ size, size)
