-- ===== src/ChildServer/Protocol/Users.antt =====
-- `validateUser`: how a client gives its name.
use snuffin.Log.{log_warning}
use snuffin.ChildServer.Keeps.{with_log-clients, answer-clients, change-clients}
use snuffin.Libc.Buffer.{c_string}
use snuffin.Marshalling.Decode.{unmarsh_string}
use snuffin.ChildServer.Protocol.{stays, named, pos, password, new_password, names, eqb_ℤ, Change}
use snuffin.Common.Int.{negsuc, ℤ}
use snuffin.Common.{
  ◌∙◌, sym, refl, ◌>>=◌, subst, inr, arith, inl, ◌==◌, if◌then◌else◌, true, Bool-cases, false,
  >>=-eq-some, some, ◌≡◌, ℕ,
}
use snuffin.Libc.Print.{Bytes}
use snuffin.ChildServer.Requests.{answer, known_user, validate_user, unknown_user, take_user}
use snuffin.ChildServer.State.{with_log, user, client_at, Server, Client, Memory, Db}

module _ {D : Type 0} (db : Db D) where
  known_user-Change :
      (name : Bytes) (n : ℕ) (c : Client) (s : Server D) {t : Server D}
      → client_at s.clients n ≡ some c
      → c.expecting ≡ user
      → known_user db name n s ≡ some t
      → Change n s.clients t.clients
  unfolding known_user
  known_user-Change name n c s here ex e =
      let ((score, d), e1, e2) = >>=-eq-some (db.get_high_score name s.db) _ e in
      let (u, e3, e4) = >>=-eq-some (answer n true (record s { db = d })) _ e2 in
      names c name password score here ex (inl refl) (
        change-clients n (named name password score) c s.clients u (answer-clients n true _ e3) here
          e4)

  unknown_user-Change :
      (name : Bytes) (n : ℕ) (c : Client) (s : Server D) {t : Server D}
      → client_at s.clients n ≡ some c
      → c.expecting ≡ user
      → unknown_user db name n s ≡ some t
      → Change n s.clients t.clients
  unfolding unknown_user
  unknown_user-Change name n c s here ex e =
      let (u, e3, e4) = >>=-eq-some (answer n false s) _ e in
      names c name new_password (pos 0) here ex (inr refl) (
        change-clients n (named name new_password (pos 0)) c s.clients u
          (answer-clients n false _ e3) here e4)

  take_user-Change :
      (str : Bytes) (n : ℕ) (c : Client) (s : Server D) {r : ℤ} {t : Server D}
      → client_at s.clients n ≡ some c
      → c.expecting ≡ user
      → take_user db str n s ≡ some (r, t)
      → Change n s.clients t.clients
  unfolding take_user
  take_user-Change str n c s {r} {t} here ex e =
      let (name, e1, e2) = >>=-eq-some (c_string str) _ e in
      let ((found, d), e3, e4) = >>=-eq-some (db.exist_user name s.db) _ e2 in
      let (u, e5, e6) =
        >>=-eq-some
          (if eqb_ℤ found (pos 0)
            then unknown_user db name n (record s { db = d })
            else known_user db name n (record s { db = d }))
          _ e4 in
      let last : u.clients ≡ t.clients = ground arith in
      subst (Change n s.clients) last (elim (Bool-cases (eqb_ℤ found (pos 0))) [
        | inl unknown ↦ unknown_user-Change name n c _ here ex (rw (unknown) at e5)
        | inr known ↦ known_user-Change name n c _ here ex (rw (known) at e5)
      ])

  pub validate_user-Change :
      (memory : Memory) (bytes : Bytes) (size n : ℕ) (c : Client) (s : Server D) {r : ℤ}
      {t : Server D}
      → client_at s.clients n ≡ some c
      → c.expecting ≡ user
      → validate_user db memory bytes size n s ≡ some (r, t)
      → Change n s.clients t.clients
  unfolding validate_user
  validate_user-Change memory bytes size n c s {r} {t} here ex e =
      let ((got, str), e1, e2) =
        >>=-eq-some (unmarsh_string memory.frame bytes (memory.fresh size)) _ e in
      elim (Bool-cases (got == 0)) [
        | inl bad ↦
            let e3 : (with_log (log_warning "Invalid String received") s >>= λ s.
            some (negsuc 0, s))
                ≡ some (r, t) =
              (rw (bad) at e2) in
            let (u, e4, e5) =
              >>=-eq-some (with_log (log_warning "Invalid String received") s) _ e3 in
            let last : u.clients ≡ t.clients = ground arith in
            stays (sym last ∙ with_log-clients (log_warning "Invalid String received") s e4)
        | inr good ↦ take_user-Change str n c s here ex (rw (good) at e2)
      ]
