-- ===== src/ChildServer/Over.antt =====
-- `isgameOver` of childServer.c.
use snuffin.ChildServer.State.{loose, Client}
use snuffin.ChildServer.Match.{count_lost, count_total, is_game_over}
use snuffin.Common.{
  refl, none, [], arith, ◌==◌, length, if◌then◌else◌, leb, some, ◌+◌, ◌∷◌, ◌≡◌, Option, List,
}

-- The clients that have not lost.
unfoldable pub still_in : List (Option Client) → List Client
still_in [] = []
still_in (none ∷ cs) = still_in cs
still_in (some c ∷ cs) = if c.state == loose then still_in cs else c ∷ still_in cs

count_lem : (cs : List (Option Client)) → count_total cs ≡ count_lost cs + length (still_in cs)
unfolding count_total count_lost still_in
count_lem [] = refl
count_lem (none ∷ cs) = count_lem cs
count_lem (some c ∷ cs) = ground (arith, count_lem cs)

-- The game is over when at most one of the clients that are there has not lost.
pub is_game_over-still_in :
    (cs : List (Option Client)) → is_game_over cs ≡ leb (length (still_in cs)) 1
unfolding is_game_over
is_game_over-still_in cs = ground (arith, count_lem cs)
