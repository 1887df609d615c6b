-- ===== src/Com/Ports.antt =====
-- Which port of comSocket.c a process listens to or connects to, for the lobbies of superServer.c.
use snuffin.Libc.Buffer.{c_string}
use snuffin.Com.Ends.{remove_eol}
use snuffin.SuperServer.Join.{max_lobby}
use snuffin.Common.Int.{negsuc, eqb_ℤ, ltb_ℤ, pos, ℤ}
use snuffin.Libc.Print.{Bytes}
use snuffin.Common.{
  >>=-eq-some, ◌∷◌, ◌>>=◌, ap, ◌∙◌, inr, sym, inl, arith, ◌+◌, Bool-cases, ◌≡◌, List, ◌<◌, ℕ,
  Option, none, some, [],
}
use snuffin.Com.Socket.{
  Outcome, max_connection_queue, listens, binds, connects, looks_up, opens, htons, connect_to_peer,
  connect_to_host, listen_connection, bound_port, peer_port, gives, exits, Call, Answers,
}
use Prim.Native.String.{String}
use mathlib.Core.Option.{some-injective}

exit_or_not : {m : String} {fd : ℤ} → ¬ (exits m ≡ gives fd)
exit_or_not e = cc

no_exit :
    {m : String} {fd : ℤ} {cs calls : List Call}
    → ¬ (◌≡◌ {A = Outcome × List Call} (exits m, cs) (gives fd, calls))
no_exit e = exit_or_not (ap (λ p. p.0) e)

connect_to_host-port :
    (a : Answers) (at : Option Bytes) (name : Bytes) (port : ℤ) {fd : ℤ} {calls : List Call}
    → connect_to_host a at name port ≡ (gives fd, calls)
    → peer_port calls ≡ some (htons port)
unfolding connect_to_host peer_port
connect_to_host-port a none name port e = absurd (no_exit e)
connect_to_host-port a (some at) name port {fd} {calls} e =
    elim (Bool-cases (ltb_ℤ a.connected (pos 0))) [
      | inl bad ↦ absurd (no_exit (rw (bad) at e))
      | inr good ↦
          let e' : (gives a.opened, opens ∷ looks_up name ∷ connects a.opened at (htons port) ∷ [])
              ≡ (gives fd, calls) =
            (rw (good) at e) in
          ap peer_port (sym (ap (λ p. p.1) e'))
    ]

connect_to_peer-port :
    (a : Answers) (addr : Bytes) (port : ℤ) {fd : ℤ} {calls : List Call}
    → connect_to_peer a addr port ≡ some (gives fd, calls)
    → peer_port calls ≡ some (htons port)
unfolding connect_to_peer
connect_to_peer-port a addr port {fd} {calls} e = elim (Bool-cases (ltb_ℤ a.opened (pos 0))) [
  | inl bad ↦ absurd (no_exit (some-injective _ _ (rw (bad) at e)))
  | inr good ↦
      let e0 : (remove_eol addr >>= λ line.
      c_string line >>= λ name. some (connect_to_host a (a.host name) name port))
          ≡ some (gives fd, calls) =
        (rw (good) at e) in
      let (line, e1, e2) = >>=-eq-some (remove_eol addr) _ e0 in
      let (name, e3, e4) = >>=-eq-some (c_string line) _ e2 in
      connect_to_host-port a (a.host name) name port (some-injective _ _ e4)
]

-- The port that is connected to, whether it succeeds or not.
connect_to_host-calls :
    (a : Answers) (at : Option Bytes) (name : Bytes) (port : ℤ) (q : ℕ)
    → peer_port (connect_to_host a at name port).1 ≡ some q
    → q ≡ htons port
unfolding connect_to_host peer_port
connect_to_host-calls a none name port q e = cc
connect_to_host-calls a (some at) name port q e = elim (Bool-cases (ltb_ℤ a.connected (pos 0))) [
  | inl bad ↦ sym (some-injective _ _ (rw (bad) at e))
  | inr good ↦ sym (some-injective _ _ (rw (good) at e))
]

pub connect_to_peer-calls :
    (a : Answers) (addr : Bytes) (port : ℤ) (q : ℕ) {o : Outcome} {calls : List Call}
    → connect_to_peer a addr port ≡ some (o, calls)
    → peer_port calls ≡ some q
    → q ≡ htons port
unfolding connect_to_peer peer_port
connect_to_peer-calls a addr port q {o} {calls} e there =
    elim (Bool-cases (ltb_ℤ a.opened (pos 0))) [
      | inl bad ↦
          let e0 : some (exits "ERROR opening socket", opens ∷ []) ≡ some (o, calls) =
            (rw (bad) at e) in
          let none_called : none ≡ peer_port calls =
            ap (λ p. peer_port p.1) (some-injective _ _ e0) in
          cc
      | inr good ↦
          let e0 : (remove_eol addr >>= λ line.
          c_string line >>= λ name. some (connect_to_host a (a.host name) name port))
              ≡ some (o, calls) =
            (rw (good) at e) in
          let (line, e1, e2) = >>=-eq-some (remove_eol addr) _ e0 in
          let (name, e3, e4) = >>=-eq-some (c_string line) _ e2 in
          connect_to_host-calls a (a.host name) name port q
            (ap (λ p. peer_port p.1) (some-injective _ _ e4) ∙ there)
    ]

pub listen_connection-port :
    (a : Answers) (port : ℤ) {fd : ℤ} {calls : List Call}
    → listen_connection a port ≡ (gives fd, calls)
    → bound_port calls ≡ some (htons port)
unfolding listen_connection bound_port
listen_connection-port a port {fd} {calls} e = elim (Bool-cases (eqb_ℤ a.opened (negsuc 0))) [
  | inl bad ↦ absurd (no_exit (rw (bad) at e))
  | inr made ↦ elim (Bool-cases (eqb_ℤ a.bound (negsuc 0))) [
    | inl bad ↦ absurd (no_exit (rw (made, bad) at e))
    | inr bound ↦ elim (Bool-cases (eqb_ℤ a.listening (negsuc 0))) [
      | inl bad ↦ absurd (no_exit (rw (made, bound, bad) at e))
      | inr good ↦
          let e' : (
            gives a.opened,
            opens ∷ binds a.opened (htons port) ∷ listens a.opened max_connection_queue ∷ [],
          )
              ≡ (gives fd, calls) =
            (rw (made, bound, good) at e) in
          ap bound_port (sym (ap (λ p. p.1) e'))
    ]
  ]
]

-- Ten numbers in a row stay apart as numbers of ports, also where they wrap around.
htons-apart :
    (n i j : ℕ) → i < max_lobby → j < max_lobby → htons (pos (n + i)) ≡ htons (pos (n + j)) → i ≡ j
unfolding htons
htons-apart n i j less less' e = omega (arith, less, less', e)

-- A client that was given the address of lobby j, and is connected, is connected to the port that
-- the process of lobby i listens to exactly when it is the same lobby, whatever the first port n,
-- also where the numbers wrap around.
pub peer_port-bound_port :
    (n i j : ℕ) (a b : Answers) (addr : Bytes) {fd fd' : ℤ} {calls calls' : List Call}
    → i < max_lobby
    → j < max_lobby
    → listen_connection a (pos (n + i)) ≡ (gives fd, calls)
    → connect_to_peer b addr (pos (n + j)) ≡ some (gives fd', calls')
    → (peer_port calls' ≡ bound_port calls → i ≡ j) × (i ≡ j → peer_port calls' ≡ bound_port calls)
peer_port-bound_port n i j a b addr {calls} {calls'} less less' listen_e peer_e =
    let bound = listen_connection-port a (pos (n + i)) listen_e in
    let peer = connect_to_peer-port b addr (pos (n + j)) peer_e in
    (
      (λ same. htons-apart n i j less less' (some-injective _ _ (sym bound ∙ sym same ∙ peer))),
      (λ same. peer ∙ sym (ap (λ k. some (htons (pos (n + k)))) same) ∙ sym bound),
    )
