-- ===== src/ChildServer/Lobby/Sound.antt =====
-- A client of childServer.c that is past its first request has a name and a score.
-- The name is set, and ended; the score is set.
use snuffin.ChildServer.Start.{in_game}
use snuffin.Common.Int.{ℤ}
use snuffin.Libc.Print.{Bytes}
use snuffin.ChildServer.Protocol.{starts, readies, waits, admitted, names, leaves, stays, Change}
use snuffin.ChildServer.State.{
  waiting, movement, playing, loose, logging, user, ready_play, Client, client_at,
}
use snuffin.ChildServer.Requests.{let_wait, all_ready}
use snuffin.Common.{
  refl, ◌==◌, Bool-cases, arith, none, zero, inr, [], inl, ◌++◌, map, ◌∙◌, suc, subst, ◌∷◌, sym,
  ◌≢◌, true, set, ◌⊎◌, some, All, ◌≡◌, ℕ, List, Option,
}

pub record IsNamed (c : Client) : Type 0 where
  pub text : Bytes
  pub points : ℤ
  pub name_eq : c.name ≡ some (text ++ 0 ∷ [])
  pub score_eq : c.score ≡ some points

-- A client without a name is one that has not made a request yet; it is logging in, or the game has
-- marked it.
unfoldable pub IsSound : Option Client → Type 0
IsSound none = Unit
IsSound (some c) = IsNamed c ⊎ ((c.expecting ≡ user) × ((c.state ≡ logging) ⊎ (c.state ≡ loose)))

pub All-set :
    (cs : List (Option Client)) (n : ℕ) (o : Option Client)
    → All IsSound cs
    → IsSound o
    → All IsSound (set cs n o)
All-set [] n o all h = all
All-set (x ∷ cs) zero o all h = (h, all.1)
All-set (x ∷ cs) (suc n) o all h = (all.0, All-set cs n o all.1 h)

-- The client of a pointer that is not null.
pub client_at-IsSound :
    (cs : List (Option Client)) (n : ℕ) (c : Client)
    → All IsSound cs
    → client_at cs n ≡ some c
    → IsSound (some c)
unfolding client_at
client_at-IsSound [] n c all e = cc
client_at-IsSound (none ∷ cs) zero c all e = cc
client_at-IsSound (some d ∷ cs) zero c all e = subst (λ o. IsSound o) e all.0
client_at-IsSound (o ∷ cs) (suc n) c all e = client_at-IsSound cs n c all.1 e

IsNamed-later : (c : Client) → IsSound (some c) → c.expecting ≢ user → IsNamed c
unfolding IsSound
IsNamed-later c (inl named) h = named
IsNamed-later c (inr (asked, _)) h = absurd (h asked)

IsNamed-ready : (c : Client) → IsSound (some c) → c.state ≡ ready_play → IsNamed c
unfolding IsSound
IsNamed-ready c (inl named) h = named
IsNamed-ready c (inr (_, inl e)) h = absurd (omega arith)
IsNamed-ready c (inr (_, inr e)) h = absurd (omega arith)

-- The rest of the client does not matter.
pub IsNamed-with : (c d : Client) → c.name ≡ d.name → c.score ≡ d.score → IsNamed c → IsNamed d
IsNamed-with c d n s h = record {
  text = h.text;
  points = h.points;
  name_eq = sym n ∙ h.name_eq;
  score_eq = sym s ∙ h.score_eq;
}

in_game-IsSound :
    (cs : List (Option Client))
    → All IsSound cs
    → all_ready cs ≡ true
    → All IsSound (map in_game cs)
unfolding IsSound all_ready
in_game-IsSound [] all h = all
in_game-IsSound (none ∷ cs) all h = (tt, in_game-IsSound cs all.1 h)
in_game-IsSound (some c ∷ cs) all h = elim (Bool-cases (c.state == ready_play)) [
  | inl ready ↦ (
    inl (
        IsNamed-with c (record c { state = playing; expecting = movement }) refl refl
          (IsNamed-ready c all.0 (ground arith))),
    in_game-IsSound cs all.1 (rw (ready) at h),
  )
  | inr other ↦ absurd (ground (arith, h, other))
]

-- Each step of the protocol keeps the clients sound.
pub Change-IsSound :
    {n : ℕ} {cs ds : List (Option Client)} → Change n cs ds → All IsSound cs → All IsSound ds
unfolding IsSound
Change-IsSound (stays e) all = subst (All IsSound) (sym e) all
Change-IsSound {n} {cs} (leaves e) all = subst (All IsSound) (sym e) (All-set cs n none all tt)
Change-IsSound {n} {cs} (names c text x score here ex next e) all = subst (All IsSound) (sym e) (
    All-set cs n _ all
      (inl (record { text = text; points = score; name_eq = refl; score_eq = refl })))
Change-IsSound {n} {cs} (admitted c here ex e) all =
    let named =
      IsNamed-later c (client_at-IsSound cs n c all here)
        (elim ex [ inl e ↦ omega (arith, e) | inr e ↦ omega (arith, e) ]) in
    subst (All IsSound) (sym e)
      (All-set cs n _ all (inl (IsNamed-with c (let_wait c) refl refl named)))
Change-IsSound {n} {cs} (waits c here ex e) all =
    let named = IsNamed-later c (client_at-IsSound cs n c all here) (omega (arith, ex)) in
    subst (All IsSound) (sym e)
      (All-set cs n _ all (inl (IsNamed-with c (record c { state = waiting }) refl refl named)))
Change-IsSound {n} {cs} (readies c here ex e) all =
    let named = IsNamed-later c (client_at-IsSound cs n c all here) (omega (arith, ex)) in
    subst (All IsSound) (sym e)
      (All-set cs n _ all (inl (IsNamed-with c (record c { state = ready_play }) refl refl named)))
Change-IsSound {n} {cs} (starts c bs here ex at_n ready many e) all =
    let named = IsNamed-later c (client_at-IsSound cs n c all here) (omega (arith, ex)) in
    let all' : All IsSound bs = subst (All IsSound) (sym at_n) (
      All-set cs n _ all
        (inl (IsNamed-with c (record c { state = ready_play }) refl refl named))) in
    subst (All IsSound) (sym e) (in_game-IsSound bs all' ready)
