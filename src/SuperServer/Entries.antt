-- ===== src/SuperServer/Entries.antt =====
-- The entries of the table of superServer.c, and the processes that they name.
use snuffin.SuperServer.Lobbies.{wait_for_child_lem}
use snuffin.SuperServer.Join.{wait_for_child, free_servers, SuperServer}
use snuffin.Common.{
  refl, not, get_lt, ◌&&◌, Bool, get_elem?-set_self, ◌==◌, get_elem?-set_ne, ◌∙◌, Bool-cases, ◌∷◌,
  subst, set, sym, get_elem?, ap, ◌<◌, arith, List, ◌≢◌, ◌≡◌, ℕ, true, false, some, inl, inr, zero,
  suc, [],
}
use snuffin.Common.Int.{pos_part, eqb_ℤ, ℤ, pos, negsuc}
use mathlib.Core.Option.{some-injective}
use snuffin.SuperServer.Turns.{entering, InStep, Living}

-- An entry that is left was there before, and has not ended.
get_free :
    (pid v : ℤ) (xs : List ℤ) (i : ℕ)
    → get_elem? (free_servers pid xs) i ≡ some v
    → v ≢ pos 0
    → (get_elem? xs i ≡ some v) × (eqb_ℤ v pid ≡ false)
unfolding free_servers
get_free pid v [] i e some_process = cc
get_free pid v (x ∷ xs) zero e some_process = elim (Bool-cases (eqb_ℤ x pid)) [
  | inl ended ↦ absurd (some_process (sym (some-injective _ _ (rw (ended) at e))))
  | inr other ↦
      let kept : some x ≡ some v = (rw (other) at e) in
      (kept, subst (λ y. eqb_ℤ y pid ≡ false) (some-injective _ _ kept) other)
]
get_free pid v (x ∷ xs) (suc i) e some_process = get_free pid v xs i e some_process

process_not_zero : (q : ℕ) → pos (suc q) ≢ pos 0
process_not_zero q e = ground (arith, ap pos_part e)

pos_number : {q r : ℕ} → some (pos q) ≡ some (pos r) → q ≡ r
pos_number e = ap pos_part (some-injective _ _ e)

-- A lobby without an entry has no living process.
vacant :
    {s : SuperServer} {living : Living} (k r : ℕ)
    → InStep (s, living)
    → get_elem? s.servers k ≡ some (pos 0)
    → living k r ≡ true
    → ⊥
vacant k r step empty lives =
    let zero_r : 0 ≡ r = pos_number (sym empty ∙ step.entered k r lives) in
    omega (arith, zero_r, step.numbered k r lives)

pub zero_entry : (v : ℤ) → eqb_ℤ v (pos 0) ≡ true → v ≡ pos 0
zero_entry (pos n) e = ap pos (ground (arith, e))
zero_entry (negsuc n) e = absurd (ground (arith, e))

not_a_number : (r : ℕ) → negsuc 0 ≢ pos r
not_a_number r e = cc

apart :
    (k : ℕ) (s : SuperServer) (living : Living)
    → InStep (s, living)
    → get_elem? s.servers k ≡ some (pos 0)
    → (j r : ℕ) → living j r ≡ true
    → j ≢ k
apart k s living step empty j r lives e =
    vacant j r step (subst (λ i. get_elem? s.servers i ≡ some (pos 0)) (sym e) empty) lives

same_both : (j k r q : ℕ) → (j == k && r == q) ≡ true → (j ≡ k) × (r ≡ q)
same_both j k r q e = elim (Bool-cases (j == k)) [
  | inl at_k ↦
      let at_q : (r == q) ≡ true = (rw (at_k) at e) in (ground (arith, at_k), ground (arith, at_q))
  | inr other ↦ let bad : false ≡ true = (rw (other) at e) in cc
]

-- A place that was given v in a table has v, and any other place what it had.
module _ (servers : List ℤ) (k : ℕ) (v : ℤ) (there : get_elem? servers k ≡ some (pos 0)) where
  in_place : (j : ℕ) → j ≡ k → get_elem? (set servers k v) j ≡ some v
  in_place j e =
      subst (λ i. get_elem? (set servers k v) i ≡ some v) (sym e)
        (get_elem?-set_self servers k v (get_lt servers k there))

  elsewhere : (j : ℕ) → j ≢ k → get_elem? (set servers k v) j ≡ get_elem? servers j
  elsewhere j other = get_elem?-set_ne servers k j v (λ e. other (sym e))

-- A process q is entered for a lobby k that has no entry.
pub enter_lem :
    (k q : ℕ) (s : SuperServer) (living : Living)
    → 0 < q
    → get_elem? s.servers k ≡ some (pos 0)
    → InStep (s, living)
    → InStep (record s { servers = set s.servers k (pos q) }, entering true k q living)
enter_lem k q s living some_number empty step = record {
  numbered = λ j r lives. elim (Bool-cases (j == k && r == q)) [
    | inl new ↦ subst (λ i. 0 < i) (sym (same_both j k r q new).1) some_number
    | inr old ↦ step.numbered j r (rw (old) at lives)
  ];
  entered = λ j r lives. elim (Bool-cases (j == k && r == q)) [
    | inl new ↦
        let (at_k, at_q) = same_both j k r q new in
        in_place s.servers k (pos q) empty j at_k ∙ ap (λ i. some (pos i)) (sym at_q)
    | inr old ↦
        let lives' : living j r ≡ true = (rw (old) at lives) in
        elsewhere s.servers k (pos q) empty j (apart k s living step empty j r lives')
        ∙ step.entered j r lives'
  ];
  alive = λ j r there. elim (Bool-cases (j == k)) [
    | inl at_k ↦
        let here : j ≡ k = ground (arith, at_k) in
        let number : q ≡ suc r =
          pos_number (sym (in_place s.servers k (pos q) empty j here) ∙ there) in
        let at_q : (suc r == q) ≡ true = ground (arith, number) in rw (at_k, at_q) refl
    | inr other ↦
        let away : j ≢ k = λ e. ground (arith, other, e) in
        rw (other) (step.alive j r (sym (elsewhere s.servers k (pos q) empty j away) ∙ there))
  ];
}

-- The number -1 is entered for such a lobby.
pub fail_lem :
    (k : ℕ) (s : SuperServer) (living : Living)
    → get_elem? s.servers k ≡ some (pos 0)
    → InStep (s, living)
    → InStep (record s { servers = set s.servers k (negsuc 0) }, living)
fail_lem k s living empty step = record {
  numbered = step.numbered;
  entered = λ j r lives.
      elsewhere s.servers k (negsuc 0) empty j (apart k s living step empty j r lives)
      ∙ step.entered j r lives;
  alive = λ j r there. elim (Bool-cases (j == k)) [
    | inl at_k ↦
        let here : j ≡ k = ground (arith, at_k) in
        absurd (
          not_a_number (suc r)
            (some-injective _ _ (sym (in_place s.servers k (negsuc 0) empty j here) ∙ there)))
    | inr other ↦
        let away : j ≢ k = λ e. ground (arith, other, e) in
        step.alive j r (sym (elsewhere s.servers k (negsuc 0) empty j away) ∙ there)
  ];
}

-- InStep is about the table only.
pub same_table :
    (s t : SuperServer) (living : Living)
    → t.servers ≡ s.servers
    → InStep (s, living)
    → InStep (t, living)
same_table s t living e step = record {
  numbered = step.numbered;
  entered =
      λ k q lives. subst (λ xs. get_elem? xs k ≡ some (pos q)) (sym e) (step.entered k q lives);
  alive = λ k q there. step.alive k q (subst (λ xs. get_elem? xs k ≡ some (pos (suc q))) e there);
}

and_left : (a b : Bool) → (a && b) ≡ true → a ≡ true
and_left true b e = refl
and_left false b e = e

pub and_true : (a : Bool) → (a && true) ≡ a
and_true true = refl
and_true false = refl

and_not : (a b : Bool) → (a && not b) ≡ true → b ≡ false
and_not true true e = sym e
and_not true false e = refl
and_not false b e = cc

-- What is read back of a table in which the entry pid has been freed.
pub free_lem :
    (pid : ℤ) (s : SuperServer) (living : Living) (later : Living)
    → InStep (s, living)
    → ((j r : ℕ) → later j r ≡ (living j r && not (eqb_ℤ (pos r) pid)))
    → InStep (wait_for_child pid s, later)
unfolding wait_for_child
free_lem pid s living later step means = record {
  numbered = λ j r lives. step.numbered j r (and_left _ _ (sym (means j r) ∙ lives));
  entered = λ j r lives.
      let both : (living j r && not (eqb_ℤ (pos r) pid)) ≡ true = sym (means j r) ∙ lives in
      let stays : eqb_ℤ (pos r) pid ≡ false = and_not _ _ both in
      wait_for_child_lem pid (pos r) s j (step.entered j r (and_left _ _ both)) ∙ (rw (stays) refl);
  alive = λ j r there.
      let (before, stays) = get_free pid (pos (suc r)) s.servers j there (process_not_zero r) in
      means j (suc r) ∙ (rw (step.alive j r before, stays) refl);
}
