-- ===== src/ChildServer/Protocol/Passwords.antt =====
-- The requests of a client of which a password, or a new one, is expected.
use snuffin.Marshalling.Decode.{unmarsh_string}
use snuffin.Libc.Buffer.{c_string}
use snuffin.ChildServer.Protocol.{admitted, stays, pos, eqb_ℤ, Change}
use snuffin.ChildServer.Keeps.{
  change-clients, answer-clients, notify_new_player-clients, notify_existing_players-clients,
}
use snuffin.ChildServer.Notify.{notify_existing_players, notify_new_player}
use snuffin.Libc.Print.{Bytes}
use snuffin.ChildServer.Requests.{
  answer, let_wait, change, resolve_new_password, create_account, resolve_password,
  validate_password,
}
use snuffin.Common.{
  refl, sym, subst, arith, ap, inr, false, set, inl, if◌then◌else◌, ◌==◌, true, Bool-cases, ◌∙◌,
  >>=-eq-some, some, ◌>>=◌, ◌≡◌, Option, List, ℕ,
}
use snuffin.ChildServer.State.{password, new_password, client_at, Memory, Client, Server, Db}
use mathlib.Core.Option.{some-injective}

module _ {D : Type 0} (db : Db D) where
  admit-clients :
      (n : ℕ) (c : Client) (cs : List (Option Client)) (s : Server D) {t : Server D}
      → s.clients ≡ cs
      → client_at cs n ≡ some c
      → (change n let_wait s >>= λ s. answer n true s) ≡ some t
      → t.clients ≡ set cs n (some (let_wait c))
  admit-clients n c cs s same here e =
      let (u, e1, e2) = >>=-eq-some (change n let_wait s) _ e in
      answer-clients n true u e2 ∙ change-clients n let_wait c cs s same here e1

  validate_password-Change :
      (memory : Memory) (bytes : Bytes) (size n : ℕ) (c : Client) (s : Server D) {r : ℕ}
      {t : Server D}
      → client_at s.clients n ≡ some c
      → c.expecting ≡ password
      → validate_password db memory bytes size n s ≡ some (r, t)
      → Change n s.clients t.clients
  unfolding validate_password
  validate_password-Change memory bytes size n c s {r} {t} here ex e =
      let ((got, str), e1, e2) =
        >>=-eq-some (unmarsh_string memory.frame bytes (memory.fresh size)) _ e in
      let (c', e3, e4) = >>=-eq-some (client_at s.clients n) _ e2 in
      let (set_name, e5, e6) = >>=-eq-some c'.name _ e4 in
      let (name, e7, e8) = >>=-eq-some (c_string set_name) _ e6 in
      let (word, e9, e10) = >>=-eq-some (c_string str) _ e8 in
      let ((valid, d), e11, e12) = >>=-eq-some (db.valid_password name word s.db) _ e10 in
      let s1 : Server D = record s { db = d } in
      elim (Bool-cases (eqb_ℤ valid (pos 0))) [
        | inl wrong ↦
            let e13 : (answer n false s1 >>= λ s. some (0, s)) ≡ some (r, t) =
              (rw (wrong) at e12) in
            let (u, e14, e15) = >>=-eq-some (answer n false s1) _ e13 in
            let last : u.clients ≡ t.clients = ground arith in
            stays (sym last ∙ answer-clients n false s1 e14)
        | inr right ↦
            let e13 : (change n let_wait s1 >>= λ s. answer n true s >>= λ s. some (1, s))
                ≡ some (r, t) =
              (rw (right) at e12) in
            let (u, e14, e15) = >>=-eq-some (change n let_wait s1) _ e13 in
            let (v, e16, e17) = >>=-eq-some (answer n true u) _ e15 in
            let last : v.clients ≡ t.clients = ground arith in
            admitted c here (inl ex) (
              sym last
              ∙ answer-clients n true u e16
              ∙ change-clients n let_wait c s.clients s1 refl here e14)
      ]

  -- The two notifications that follow.
  introduce-clients :
      (n : ℕ) (s : Server D) {t : Server D}
      → (notify_new_player n s >>= λ s. notify_existing_players n s) ≡ some t
      → t.clients ≡ s.clients
  introduce-clients n s e =
      let (u, e1, e2) = >>=-eq-some (notify_new_player n s) _ e in
      notify_existing_players-clients n u e2 ∙ notify_new_player-clients n s e1

  pub resolve_password-Change :
      (memory : Memory) (bytes : Bytes) (size n : ℕ) (c : Client) (s : Server D) {t : Server D}
      → client_at s.clients n ≡ some c
      → c.expecting ≡ password
      → resolve_password db memory bytes size n s ≡ some t
      → Change n s.clients t.clients
  unfolding resolve_password
  resolve_password-Change memory bytes size n c s {t} here ex e =
      let ((res, u), e1, e2) = >>=-eq-some (validate_password db memory bytes size n s) _ e in
      let same : t.clients ≡ u.clients = elim (Bool-cases (res == 1)) [
        | inl right ↦ introduce-clients n u (rw (right) at e2)
        | inr wrong ↦
            let e3 : some u ≡ some t = (rw (wrong) at e2) in
            ap (λ v. v.clients) (sym (some-injective _ _ e3))
      ] in
      subst (Change n s.clients) (sym same)
        (validate_password-Change memory bytes size n c s here ex e1)

  create_account-Change :
      (str : Bytes) (n : ℕ) (c : Client) (s : Server D) {t : Server D}
      → client_at s.clients n ≡ some c
      → c.expecting ≡ new_password
      → create_account db str n s ≡ some t
      → Change n s.clients t.clients
  unfolding create_account
  create_account-Change str n c s {t} here ex e =
      let (c', e3, e4) = >>=-eq-some (client_at s.clients n) _ e in
      let (set_name, e5, e6) = >>=-eq-some c'.name _ e4 in
      let (name, e7, e8) = >>=-eq-some (c_string set_name) _ e6 in
      let (word, e9, e10) = >>=-eq-some (c_string str) _ e8 in
      let ((res, d), e11, e12) = >>=-eq-some (db.create_user name word s.db) _ e10 in
      let s1 : Server D = record s { db = d } in
      let (u, e13, e14) =
        >>=-eq-some
          (if eqb_ℤ res (pos 0)
            then (change n let_wait s1 >>= λ s. answer n true s)
            else answer n false s1)
          _ e12 in
      let same : t.clients ≡ u.clients = introduce-clients n u e14 in
      subst (Change n s.clients) (sym same) (elim (Bool-cases (eqb_ℤ res (pos 0))) [
        | inl made ↦
            admitted c here (inr ex) (admit-clients n c s.clients s1 refl here (rw (made) at e13))
        | inr taken ↦ stays (answer-clients n false s1 (rw (taken) at e13))
      ])

  pub resolve_new_password-Change :
      (memory : Memory) (bytes : Bytes) (n : ℕ) (c : Client) (s : Server D) {t : Server D}
      → client_at s.clients n ≡ some c
      → c.expecting ≡ new_password
      → resolve_new_password db memory bytes n s ≡ some t
      → Change n s.clients t.clients
  unfolding resolve_new_password
  resolve_new_password-Change memory bytes n c s {t} here ex e =
      let ((res, str), e1, e2) =
        >>=-eq-some (unmarsh_string memory.frame bytes (memory.fresh 4)) _ e in
      elim (Bool-cases (res == 0)) [
        | inl bad ↦
            let e3 : some s ≡ some t = (rw (bad) at e2) in
            stays (ap (λ v. v.clients) (sym (some-injective _ _ e3)))
        | inr good ↦ create_account-Change str n c s here ex (rw (good) at e2)
      ]
