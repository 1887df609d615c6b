-- ===== src/GameClient/Table.antt =====
-- The table of players: who leaves.
use snuffin.Game.Valid.{assign-set}
use snuffin.Common.Int.{negsuc, eqb_ℤ, add_int, ℤ, pos}
use snuffin.Libc.Buffer.{memcpy_string, memcpy, c_string}
use snuffin.Libc.Print.{Bytes}
use snuffin.Structs.{Player}
use snuffin.GameClient.Lobby.{
  place, belongs, max_word, Lobby, add_player, take_player, player_left, find_leaving,
}
use snuffin.Common.{
  get_elem?-set_ne, inr, get_elem?-set_self, sym, inl, ◌==◌, Bool-cases, get_lt, replicate, drop,
  refl, none, ◌++◌, zero, [], set, subst, true, false, ap, ◌∙◌, length, suc, arith, some, ◌+◌, ◌≡◌,
  ◌∷◌, ◌<◌, get_elem?, List, Option, ℕ,
}
use mathlib.Core.Option.{some-injective}

-- From place i on, each player stands in the place of its number.
abbrev pub IsTable : ℕ → List (Option Player) → Type 0
IsTable i ps = (j : ℕ) (p : Player) → get_elem? ps j ≡ some (some p) → p.num ≡ pos (i + j)

IsTable-rest :
    (i : ℕ) (x : Option Player) (ps : List (Option Player))
    → IsTable i (x ∷ ps)
    → IsTable (i + 1) ps
IsTable-rest i x ps table j p e =
    let next : i + suc j ≡ i + 1 + j = omega arith in table (suc j) p e ∙ ap pos next

find_past :
    (n i : ℕ) (ps : List (Option Player)) (index : Option ℕ)
    → IsTable i ps
    → n < i
    → find_leaving (pos n) i ps index ≡ index
unfolding find_leaving
find_past n i [] index table h = refl
find_past n i (none ∷ ps) index table h =
    find_past n (i + 1) ps index (IsTable-rest i none ps table) (omega (arith, h))
find_past n i (some p ∷ ps) index table h =
    let other : eqb_ℤ p.num (pos n) ≡ false = ground (arith, table 0 p refl) in
    rw (other) (find_past n (i + 1) ps index (IsTable-rest i (some p) ps table) (omega (arith, h)))

find_lem :
    (i j : ℕ) (ps : List (Option Player)) (index : Option ℕ) (p : Player)
    → IsTable i ps
    → get_elem? ps j ≡ some (some p)
    → find_leaving (pos (i + j)) i ps index ≡ some (i + j)
unfolding find_leaving
find_lem i j [] index p table e = cc
find_lem i zero (none ∷ ps) index p table e = cc
find_lem i zero (some q ∷ ps) index p table e =
    let here : eqb_ℤ q.num (pos (i + 0)) ≡ true = ground (arith, table 0 q refl) in
    let same : i ≡ i + 0 = omega arith in
    rw (here) (
      find_past (i + 0) (i + 1) ps (some i) (IsTable-rest i (some q) ps table) (omega arith)
      ∙ ap some same)
find_lem i (suc j) (none ∷ ps) index p table e =
    let next : i + 1 + j ≡ i + suc j = omega arith in
    subst (λ n. find_leaving (pos n) (i + 1) ps index ≡ some n) next
      (find_lem (i + 1) j ps index p (IsTable-rest i none ps table) e)
find_lem i (suc j) (some q ∷ ps) index p table e =
    let next : i + 1 + j ≡ i + suc j = omega arith in
    let other : eqb_ℤ q.num (pos (i + suc j)) ≡ false = ground (arith, table 0 q refl) in
    rw (other) (
      subst (λ n. find_leaving (pos n) (i + 1) ps index ≡ some n) next
        (find_lem (i + 1) j ps index p (IsTable-rest i (some q) ps table) e))

-- In a table where each player stands in the place of its number, the message that player n leaves
-- frees that place and no other, and the count goes down by one.
pub player_left_lem :
    (n : ℕ) (p : Player) (s : Lobby) {count : ℤ}
    → IsTable 0 s.players
    → get_elem? s.players n ≡ some (some p)
    → add_int s.n_players (negsuc 0) ≡ some count
    → player_left (pos n) s ≡ some (record s { players = set s.players n none; n_players = count })
unfolding player_left
player_left_lem n p s table here less =
    let zero_plus : 0 + n ≡ n = omega arith in
    let found : find_leaving (pos n) 0 s.players none ≡ some n =
      subst (λ k. find_leaving (pos k) 0 s.players none ≡ some k) zero_plus
        (find_lem 0 n s.players none p table here) in
    rw (found, assign-set s.players n none (get_lt s.players n here), less) refl

place_pos : (n : ℕ) → place (pos n) ≡ some n
unfolding place
place_pos n = refl

-- A player that is not in the table yet is put in the place of its number, with a name of its own,
-- if the name fits; each player still stands in the place of its number.
pub take_player-IsTable :
    (new : Player) (n : ℕ) (name : Bytes) (s : Lobby)
    → c_string new.name ≡ some name
    → new.num ≡ pos n
    → n < length s.players
    → length name < max_word
    → belongs new s.players ≡ some (negsuc 0)
    → IsTable 0 s.players
    → (s' : Lobby) × (take_player new s ≡ some s')
      × (s'.players
          ≡ set s.players n (
              some
                (record new { name = name ++ 0 ∷ drop (length name + 1) (replicate max_word 0) })))
      × IsTable 0 s'.players
unfolding take_player add_player
take_player-IsTable new n name s named num room fits unknown table =
    let copied : Bytes = name ++ 0 ∷ drop (length name + 1) (replicate max_word 0) in
    let entry : Player = record new { name = copied } in
    let at_n : place new.num ≡ some n = ap place num ∙ place_pos n in
    let wrote : memcpy (replicate max_word 0) (name ++ 0 ∷ []) ≡ some copied =
      memcpy_string (replicate max_word 0) name (omega (arith, fits)) in
    (
      record s { players = set s.players n (some entry) },
      rw (unknown, named, wrote, at_n, assign-set s.players n (some entry) room) refl,
      refl,
      λ j p e. elim (Bool-cases (n == j)) [
        | inl same ↦
            let e' : n ≡ j = ground arith in
            let found : some entry ≡ some p = some-injective (some entry) (some p) (
              sym (get_elem?-set_self s.players n (some entry) room)
              ∙ ap (λ k. get_elem? (set s.players n (some entry)) k) e'
              ∙ e) in
            let is_new : entry ≡ p = some-injective entry p found in
            let number : n ≡ 0 + j = omega (arith, e') in
            sym (ap (λ q. q.num) is_new) ∙ num ∙ ap pos number
        | inr other ↦
            table j p (sym (get_elem?-set_ne s.players n j (some entry) (ground arith)) ∙ e)
      ],
    )
