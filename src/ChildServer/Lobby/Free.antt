-- ===== src/ChildServer/Lobby/Free.antt =====
-- What the thread of `listenNewClients` knows stays true while the other threads run.
use snuffin.ChildServer.Start.{in_game}
use snuffin.ChildServer.Protocol.{starts, readies, waits, admitted, names, leaves, stays, Change}
use snuffin.ChildServer.Slots.{InStep}
use snuffin.ChildServer.Listen.{Listener}
use snuffin.ChildServer.State.{Client, Server, client_at}
use snuffin.Common.{
  zero, inr, get_lt, ◌<◌, get_elem?-set_self, refl, [], inl, get_elem?-set_ne, subst, arith, ◌==◌,
  suc, Bool-cases, ◌∷◌, sym, ◌≢◌, >>=-eq-some, none, length-set, get_elem?, map, some, ◌∙◌, ap, set,
  length, ◌≡◌, Option, List, ℕ,
}
use snuffin.ChildServer.Match.{player_lost}
use mathlib.Core.Option.{some-injective}

-- No place goes, and a free place is not taken.
pub record Spares (cs ds : List (Option Client)) : Type 0 where
  pub size : length ds ≡ length cs
  pub free : (i : ℕ) → get_elem? cs i ≡ some none → get_elem? ds i ≡ some none

not_free :
    (cs : List (Option Client)) (i : ℕ) (c : Client)
    → get_elem? cs i ≡ some none
    → client_at cs i ≢ some c
unfolding client_at
not_free cs i c free here = ground (arith, free, here)

length-in_game : (cs : List (Option Client)) → length (map in_game cs) ≡ length cs
length-in_game [] = refl
length-in_game (o ∷ cs) = ap suc (length-in_game cs)

get_elem?-in_game :
    (cs : List (Option Client)) (i : ℕ)
    → get_elem? cs i ≡ some none
    → get_elem? (map in_game cs) i ≡ some none
get_elem?-in_game [] i e = cc
get_elem?-in_game (none ∷ cs) zero e = refl
get_elem?-in_game (some c ∷ cs) zero e = cc
get_elem?-in_game (o ∷ cs) (suc i) e = get_elem?-in_game cs i e

set-Spares :
    (cs ds : List (Option Client)) (n : ℕ) (o : Option Client) (c : Client)
    → client_at cs n ≡ some c
    → ds ≡ set cs n o
    → Spares cs ds
unfolding client_at
set-Spares cs ds n o c here e = record {
  size = ap length e ∙ length-set cs n o;
  free = λ i free.
      let other : n ≢ i =
        λ same. not_free cs i c free (subst (λ k. client_at cs k ≡ some c) same here) in
      ap (λ l. get_elem? l i) e ∙ get_elem?-set_ne cs n i o other ∙ free;
}

leave-Spares : (cs ds : List (Option Client)) (n : ℕ) → ds ≡ set cs n none → Spares cs ds
leave-Spares cs ds n e = record {
  size = ap length e ∙ length-set cs n none;
  free = λ i free. ap (λ l. get_elem? l i) e ∙ elim (Bool-cases (n == i)) [
    | inl same ↦
        let same' : i ≡ n = ground (arith, same) in
        subst (λ k. get_elem? (set cs n none) k ≡ some none) (sym same')
          (get_elem?-set_self cs n none (subst (λ k. k < length cs) same' (get_lt cs i free)))
    | inr other ↦ get_elem?-set_ne cs n i none (ground (arith, other)) ∙ free
  ];
}

in_game-Spares : (cs : List (Option Client)) → Spares cs (map in_game cs)
in_game-Spares cs = record {
  size = length-in_game cs;
  free = λ i free. get_elem?-in_game cs i free;
}

pub refl-Spares : (cs ds : List (Option Client)) → ds ≡ cs → Spares cs ds
refl-Spares cs ds e = record {
  size = ap length e;
  free = λ i free. ap (λ l. get_elem? l i) e ∙ free;
}

pub Change-Spares : {n : ℕ} {cs ds : List (Option Client)} → Change n cs ds → Spares cs ds
Change-Spares {n} {cs} {ds} (stays e) = refl-Spares cs ds e
Change-Spares {n} {cs} {ds} (leaves e) = leave-Spares cs ds n e
Change-Spares {n} {cs} {ds} (names c text x score here ex next e) = set-Spares cs ds n _ c here e
Change-Spares {n} {cs} {ds} (admitted c here ex e) = set-Spares cs ds n _ c here e
Change-Spares {n} {cs} {ds} (waits c here ex e) = set-Spares cs ds n _ c here e
Change-Spares {n} {cs} {ds} (readies c here ex e) = set-Spares cs ds n _ c here e
Change-Spares {n} {cs} {ds} (starts c bs here ex at_n ready many e) =
    let first = set-Spares cs bs n _ c here at_n in
    let second = in_game-Spares bs in
    record {
      size = ap length e ∙ second.size ∙ first.size;
      free = λ i free. ap (λ l. get_elem? l i) e ∙ second.free i (first.free i free);
    }

pub InStep-Spares :
    {D : Type 0} (l : Listener) (s t : Server D)
    → Spares s.clients t.clients
    → InStep l s
    → InStep l t
InStep-Spares l s t spares step = record {
  size = spares.size ∙ step.size;
  room = step.room;
  free = λ less. spares.free l.next_empty (step.free less);
}

pub player_lost-Spares :
    {D : Type 0} (n : ℕ) (s : Server D) {t : Server D}
    → player_lost n s ≡ some t
    → Spares s.clients t.clients
unfolding player_lost
player_lost-Spares n s {t} e =
    let (c, here, e2) = >>=-eq-some (client_at s.clients n) _ e in
    set-Spares s.clients t.clients n _ c here (ap (λ u. u.clients) (sym (some-injective _ _ e2)))
