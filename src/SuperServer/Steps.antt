-- ===== src/SuperServer/Steps.antt =====
-- The table of superServer.c is in step with the processes of the lobbies.
use snuffin.SuperServer.Join.{SuperServer}
use snuffin.Common.{
  refl, Bool, ◌==◌, ◌∙◌, Bool-cases, subst, set, sym, get_elem?, ap, ◌<◌, arith, ◌≡◌, ℕ, true,
  false, some, inl, inr,
}
use snuffin.Common.Int.{pos_part, eqb_ℤ, pos, negsuc}
use snuffin.SuperServer.Turns.{
  leaving, Runs, Served, serve_client-Served, Turn, entering, InStep, Living, forks, fork_fails,
  ends, gives_up, none_yet, and_then,
}
use snuffin.SuperServer.Entries.{zero_entry, enter_lem, fail_lem, same_table, free_lem, and_true}

no_failure : (q : ℕ) → eqb_ℤ (pos q) (negsuc 0) ≡ false
no_failure q = ground arith

forks_lem :
    (k q : ℕ) (s s' : SuperServer) (living : Living) (made : Bool)
    → Served k (pos q) made s.servers s'
    → 0 < q
    → InStep (s, living)
    → InStep (s', entering made k q living)
forks_lem k q s s' living made served some_number step =
    elim (Bool-cases (eqb_ℤ served.entry (pos 0))) [
      | inl empty ↦
          let vacancy : get_elem? s.servers k ≡ some (pos 0) =
            served.found ∙ ap some (zero_entry served.entry empty) in
          let is_made : made ≡ true = (rw (empty, no_failure q) at served.made_eq) in
          let table : s'.servers ≡ set s.servers k (pos q) = (rw (empty) at served.table) in
          subst (λ m. InStep (s', entering m k q living)) (sym is_made)
            (same_table (record s { servers = set s.servers k (pos q) }) s'
              (entering true k q living) table (enter_lem k q s living some_number vacancy step))
      | inr full ↦
          let not_made : made ≡ false = (rw (full) at served.made_eq) in
          let table : s'.servers ≡ s.servers = (rw (full) at served.table) in
          subst (λ m. InStep (s', entering m k q living)) (sym not_made)
            (same_table s s' living table step)
    ]

fork_fails_lem :
    (k : ℕ) (s s' : SuperServer) (living : Living) (made : Bool)
    → Served k (negsuc 0) made s.servers s'
    → InStep (s, living)
    → InStep (s', living)
fork_fails_lem k s s' living made served step = elim (Bool-cases (eqb_ℤ served.entry (pos 0))) [
  | inl empty ↦
      let vacancy : get_elem? s.servers k ≡ some (pos 0) =
        served.found ∙ ap some (zero_entry served.entry empty) in
      let table : s'.servers ≡ set s.servers k (negsuc 0) = (rw (empty) at served.table) in
      same_table (record s { servers = set s.servers k (negsuc 0) }) s' living table
        (fail_lem k s living vacancy step)
  | inr full ↦
      let table : s'.servers ≡ s.servers = (rw (full) at served.table) in
      same_table s s' living table step
]

same_number : (r q : ℕ) → eqb_ℤ (pos r) (pos q) ≡ (r == q)
same_number r q = ground arith

Turn-InStep : {p q : SuperServer × Living} → Turn p q → InStep p → InStep q
Turn-InStep
      (forks {s} {s'} {living} {d} {made} n k q started frame incoming buffer some_number e at_k)
      step =
    let (j, served) = serve_client-Served n (pos q) started frame incoming buffer s e in
    let j_k : j ≡ k = ap pos_part (sym served.asked ∙ at_k) in
    forks_lem k q s s' living made (subst (λ i. Served i (pos q) made s.servers s') j_k served)
      some_number step
Turn-InStep (fork_fails {s} {s'} {living} {d} {made} n started frame incoming buffer e) step =
    let (k, served) = serve_client-Served n (negsuc 0) started frame incoming buffer s e in
    fork_fails_lem k s s' living made served step
Turn-InStep (ends {s} {living} q some_number) step =
    free_lem (pos q) s living (leaving q living) step (λ j r. rw (same_number r q) refl)
Turn-InStep (gives_up {s} {living}) step =
    free_lem (negsuc 0) s living living step
      (λ j r. rw (no_failure r) (sym (and_true (living j r))))

-- Whatever clients ask for, whether `fork` gives a process or fails, and whenever the processes of
-- lobbies end, the table names exactly the processes that were made and have not ended, each at its
-- lobby, so that no lobby has two, if it did at the start. A process number is not 0; that a process
-- ends and that its thread takes its entries back is one turn, and a thread takes back the entries of
-- the number that it was made for.
pub Runs-InStep : {p q : SuperServer × Living} → Runs p q → InStep p → InStep q
Runs-InStep none_yet step = step
Runs-InStep (and_then runs turn) step = Turn-InStep turn (Runs-InStep runs step)
