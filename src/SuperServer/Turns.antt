-- ===== src/SuperServer/Turns.antt =====
-- The super server over time: clients that ask for lobbies, and processes of lobbies that end.
use snuffin.Libc.Print.{Bytes}
use snuffin.Com.Transport.{Incoming}
use snuffin.ComWrapper.Reader.{read_data, Reader}
use snuffin.Marshalling.Decode.{unmarsh_server_id, Frame}
use snuffin.Structs.{StreamData}
use snuffin.Game.Board.{assign}
use snuffin.SuperServer.Join.{
  direction_message, first_answer, wait_for_child, server_at, set_server, SuperServer, serve_client,
  answer_client,
}
use snuffin.Common.{
  ◌∙◌, ap, sym, ◌>>=◌, length, if◌then◌else◌, ltb, >>=-eq-some, Bool-cases, ◌||◌, get_elem?, set,
  ◌==◌, List, ◌<◌, not, ◌&&◌, Option, ◌≡◌, Bool, ℕ, true, false, some, none, inl, inr, suc,
}
use snuffin.Common.Int.{eqb_ℤ, ℤ, pos, negsuc}
use mathlib.Core.Option.{some-injective}

-- Whether the process with a number, which is not 0, was made for a lobby and has not ended.
abbrev pub Living : Type 0
Living = ℕ → ℕ → Bool

abbrev pub entering : Bool → ℕ → ℕ → Living → Living
entering made k q living j r = (made && (j == k && r == q)) || living j r

abbrev pub leaving : ℕ → Living → Living
leaving q living j r = living j r && not (r == q)

-- A client is served, and `fork` gives the number q if it is called; or it fails if it is called;
-- or the process with number q ends, and the thread that waits for it takes its turn; or the thread
-- that was made after a failure of `fork` takes its turn, which waits for -1, as for any process.
pub data Turn : SuperServer × Living → SuperServer × Living → Type 0 where
  forks :
      {s s' : SuperServer} {living : Living} {d : Option StreamData} {made : Bool} (n k q : ℕ)
      (started : Bool) (frame : Frame) (incoming : Incoming) (buffer : Bytes)
      → 0 < q
      → serve_client n (pos q) started frame incoming buffer s ≡ some (d, made, s')
      → s'.join_server ≡ pos k
      → Turn (s, living) (s', entering made k q living)
  fork_fails :
      {s s' : SuperServer} {living : Living} {d : Option StreamData} {made : Bool} (n : ℕ)
      (started : Bool) (frame : Frame) (incoming : Incoming) (buffer : Bytes)
      → serve_client n (negsuc 0) started frame incoming buffer s ≡ some (d, made, s')
      → Turn (s, living) (s', living)
  ends :
      {s : SuperServer} {living : Living} (q : ℕ)
      → 0 < q
      → Turn (s, living) (wait_for_child (pos q) s, leaving q living)
  gives_up :
      {s : SuperServer} {living : Living} → Turn (s, living) (wait_for_child (negsuc 0) s, living)

pub data Runs (first : SuperServer × Living) : SuperServer × Living → Type 0 where
  none_yet : Runs first first
  and_then : {p q : SuperServer × Living} → Runs first p → Turn p q → Runs first q

-- The table names the living processes, each at its lobby, and no other.
pub record InStep (p : SuperServer × Living) : Type 0 where
  pub numbered : (k q : ℕ) → p.1 k q ≡ true → 0 < q
  pub entered : (k q : ℕ) → p.1 k q ≡ true → get_elem? p.0.servers k ≡ some (pos q)
  pub alive : (k q : ℕ) → get_elem? p.0.servers k ≡ some (pos (suc q)) → p.1 k (suc q) ≡ true

-- What serving a client does to the table.
pub record Served (k : ℕ) (child : ℤ) (made : Bool) (servers : List ℤ) (s' : SuperServer)
    : Type 0 where
  pub entry : ℤ
  pub asked : s'.join_server ≡ pos k
  pub found : get_elem? servers k ≡ some entry
  pub made_eq : made ≡ (eqb_ℤ entry (pos 0) && not (eqb_ℤ child (negsuc 0)))
  pub table : s'.servers ≡ (if eqb_ℤ entry (pos 0) then set servers k child else servers)

set_server-set :
    (servers : List ℤ) (k : ℕ) (v : ℤ) {after : List ℤ}
    → set_server servers (pos k) v ≡ some after
    → after ≡ set servers k v
unfolding set_server assign
set_server-set servers k v {after} e = elim (Bool-cases (ltb k (length servers))) [
  | inl within ↦
      let e1 : some (set servers k v) ≡ some after = (rw (within) at e) in
      sym (some-injective _ _ e1)
  | inr outside ↦ let e1 : none ≡ some after = (rw (outside) at e) in cc
]

answer_client-Served :
    (n k : ℕ) (child : ℤ) (started : Bool) (servers : List ℤ) (reader : Reader)
    {d : Option StreamData} {made : Bool} {s' : SuperServer}
    → answer_client n child started
        (record { servers = servers; reader = reader; join_server = pos k })
      ≡ some (d, made, s')
    → Served k child made servers s'
unfolding answer_client server_at
answer_client-Served n k child started servers reader {d} {made} {s'} e =
    let s : SuperServer = record { servers = servers; reader = reader; join_server = pos k } in
    let (v, e1, e2) = >>=-eq-some (get_elem? servers k) _ e in
    elim (Bool-cases (eqb_ℤ v (pos 0))) [
      | inl empty ↦
          let e3 : (first_answer child started n (pos k) >>= λ d.
          set_server servers (pos k) child >>= λ after.
          some (d, not (eqb_ℤ child (negsuc 0)), record s { servers = after }))
              ≡ some (d, made, s') =
            (rw (empty) at e2) in
          let (d', e4, e5) = >>=-eq-some (first_answer child started n (pos k)) _ e3 in
          let (after, e6, e7) = >>=-eq-some (set_server servers (pos k) child) _ e5 in
          let same = sym (some-injective _ _ e7) in
          record {
            entry = v;
            asked = ap (λ r. r.2.join_server) same;
            found = e1;
            made_eq = rw (empty) (ap (λ r. r.1) same);
            table = rw (empty) (ap (λ r. r.2.servers) same ∙ set_server-set servers k child e6);
          }
      | inr full ↦
          let e3 : (direction_message n (pos k) >>= λ d. some (some d, false, s))
              ≡ some (d, made, s') =
            (rw (full) at e2) in
          let (d', e4, e5) = >>=-eq-some (direction_message n (pos k)) _ e3 in
          let same = sym (some-injective _ _ e5) in
          record {
            entry = v;
            asked = ap (λ r. r.2.join_server) same;
            found = e1;
            made_eq = rw (full) (ap (λ r. r.1) same);
            table = rw (full) (ap (λ r. r.2.servers) same);
          }
    ]

answer_client-somewhere :
    (n : ℕ) (j child : ℤ) (started : Bool) (servers : List ℤ) (reader : Reader)
    {d : Option StreamData} {made : Bool} {s' : SuperServer}
    → answer_client n child started (record { servers = servers; reader = reader; join_server = j })
      ≡ some (d, made, s')
    → (k : ℕ) × Served k child made servers s'
unfolding answer_client server_at
answer_client-somewhere n (pos k) child started servers reader e =
    (k, answer_client-Served n k child started servers reader e)
answer_client-somewhere n (negsuc k) child started servers reader e = cc

pub serve_client-Served :
    (n : ℕ) (child : ℤ) (started : Bool) (frame : Frame) (incoming : Incoming) (buffer : Bytes)
    (s : SuperServer) {d : Option StreamData} {made : Bool} {s' : SuperServer}
    → serve_client n child started frame incoming buffer s ≡ some (d, made, s')
    → (k : ℕ) × Served k child made s.servers s'
unfolding serve_client
serve_client-Served n child started frame incoming buffer s e =
    let (got, e1, e2) = >>=-eq-some (read_data s.reader incoming buffer) _ e in
    let ((res, j), e3, e4) = >>=-eq-some (unmarsh_server_id frame got.bytes s.join_server) _ e2 in
    answer_client-somewhere n j child started s.servers got.reader e4
