-- ===== src/Com/Ends.antt =====
-- The two ends of a connection of comFIFO.c, and how it is closed; `removeEOL` of comSocket.c.
use snuffin.Structs.{StreamData}
use mathlib.Core.Option.{some-injective}
use snuffin.Libc.Strtol.{Stops}
use snuffin.Com.Transport.{received, receive_data, Incoming}
use snuffin.Common.Int.{pos_part, pos, eqb_ℤ, IsInt, ℤ}
use snuffin.Libc.Print.{show_int, Bytes}
use snuffin.Libc.Buffer.{Lacks, c_string}
use snuffin.Common.{
  ==_ne, Bool, ap₂, >>=-eq-some, true, false, take, drop, refl, ◌<◌, append_assoc, sym, ◌+◌, ◌∙◌,
  ◌==◌, length, ap, some, ◌∷◌, ◌>>=◌, ◌≡◌, if◌then◌else◌, [], ◌++◌, none, Option, List,
}
use snuffin.Com.Fifo.{server_path, accepted_hello, hello, accepted_id, client_path}

-- The path that an end reads from, and the one that it writes to: `fd` and `fd2` of the `Connection`.
pub record Ends : Type 0 where
  pub fd : Bytes
  pub fd2 : Bytes

abbrev pub swapped : Ends → Ends
swapped e = record { fd = e.fd2; fd2 = e.fd }

abbrev ends : Bytes → Bytes → Ends
ends r w = record { fd = r; fd2 = w }

-- What `connectToPeer` of the process with number pid makes: the path of the server, the message that
-- is sent there, and the two ends. `given` is the address, `fresh` the array of the message; `opened`
-- says whether the server's path can be opened, and `some none` is the null pointer.
unfoldable pub connect_to_peer :
    Bytes → ℤ → Bytes → Bool → ℤ → Option (Option (Bytes × (StreamData × Ends)))
unfolding client_path server_path hello
connect_to_peer given id fresh opened pid = do
  r ← client_path pid "r"
  w ← client_path pid "w"
  server ← server_path given id
  d ← hello fresh pid
  some (if opened then some (server, (d, ends r w)) else none)

-- `fresh` is the array that the message is received into.
unfoldable pub accept_connection : Incoming → Bytes → Option Ends
unfolding accepted_id client_path
accept_connection incoming fresh = do
  (bytes, size) ← receive_data incoming fresh
  id ← accepted_id bytes
  r ← client_path id "r"
  w ← client_path id "w"
  some (record { fd = w; fd2 = r })

-- What `closeConn` asks of the system.
pub data Effect : Type 0 where
  writes : ℤ → Bytes → Effect
  closes : ℤ → Effect
  unlinks : Bytes → Effect

abbrev unlink : Option Bytes → List Effect
unlink none = []
unlink (some path) = unlinks path ∷ []

-- `addr1` and `addr2` are the globals.
unfoldable pub close_conn : ℤ → ℤ → Option Bytes → Option Bytes → List Effect
close_conn fd fd2 addr1 addr2 =
    let first = if eqb_ℤ fd (pos 0) then [] else closes fd ∷ [] in
    let second = if eqb_ℤ fd2 (pos 0) then [] else closes fd2 ∷ [] in
    writes fd2 (0 ∷ []) ∷ (first ++ (second ++ (unlink addr1 ++ unlink addr2)))

-- The bytes that are written.
unfoldable pub written : List Effect → Bytes
written [] = []
written (writes fd bytes ∷ es) = bytes ++ written es
written (closes fd ∷ es) = written es
written (unlinks path ∷ es) = written es

-- Up to the first 0, which must be there.
unfoldable pub remove_eol : Bytes → Option Bytes
remove_eol [] = none
remove_eol (c ∷ s) =
    let rest = remove_eol s in
    if c == 0 then some (c ∷ s) else (rest >>= λ r. some ((if c == b'\n' then 0 else c) ∷ r))

-- A line without its end.
pub remove_eol_lem :
    (line rest : Bytes)
    → Lacks 0 line
    → Lacks b'\n' line
    → (remove_eol (line ++ b'\n' ∷ 0 ∷ rest) >>= λ s. c_string s) ≡ some line
unfolding remove_eol c_string
remove_eol_lem [] rest lacks one = refl
remove_eol_lem (c ∷ line) rest lacks one =
    let (r, e1, e2) =
      >>=-eq-some (remove_eol (line ++ b'\n' ∷ 0 ∷ rest)) _
        (remove_eol_lem line rest lacks.1 one.1) in
    let not_end : (c == 0) ≡ false = ==_ne c 0 lacks.0 in
    let not_line : (c == b'\n') ≡ false = ==_ne c b'\n' one.0 in
    rw (not_end, e1, not_line, not_end, e2) refl

written-append : (es fs : List Effect) → written (es ++ fs) ≡ written es ++ written fs
unfolding written
written-append [] fs = refl
written-append (writes fd bytes ∷ es) fs =
    ap (λ l. bytes ++ l) (written-append es fs) ∙ sym (append_assoc bytes (written es) (written fs))
written-append (closes fd ∷ es) fs = written-append es fs
written-append (unlinks path ∷ es) fs = written-append es fs

written-closes : (b : Bool) (fd : ℤ) → written (if b then [] else closes fd ∷ []) ≡ []
unfolding written
written-closes true fd = refl
written-closes false fd = refl

written-unlink : (addr : Option Bytes) → written (unlink addr) ≡ []
unfolding written
written-unlink none = refl
written-unlink (some path) = refl

-- Closing writes one byte, a 0.
pub written-close_conn :
    (fd fd2 : ℤ) (addr1 addr2 : Option Bytes) → written (close_conn fd fd2 addr1 addr2) ≡ 0 ∷ []
unfolding close_conn written
written-close_conn fd fd2 addr1 addr2 =
    let first : List Effect = if eqb_ℤ fd (pos 0) then [] else closes fd ∷ [] in
    let second : List Effect = if eqb_ℤ fd2 (pos 0) then [] else closes fd2 ∷ [] in
    ap (λ l. 0 ∷ l)
      (written-append first (second ++ (unlink addr1 ++ unlink addr2))
        ∙ ap₂ (λ a b. a ++ b) (written-closes (eqb_ℤ fd (pos 0)) fd)
            (written-append second (unlink addr1 ++ unlink addr2)
              ∙ ap₂ (λ a b. a ++ b) (written-closes (eqb_ℤ fd2 (pos 0)) fd2)
                  (written-append (unlink addr1) (unlink addr2)
                    ∙ ap₂ (λ a b. a ++ b) (written-unlink addr1) (written-unlink addr2))))

-- After `connectToPeer`, what the client writes to is what the server reads from, and the other way
-- round: `acceptConnection` opens the same paths from the message. The arrays have room for the
-- message, and what the server's array held behind it begins with no digit.
pub accept_connection-connect_to_peer :
    (given fresh buffer server bytes : Bytes) (id pid : ℤ) (d : StreamData) (e : Ends)
    → IsInt pid
    → length (show_int pid) + 1 < length fresh
    → length (show_int pid) + 1 < length buffer
    → Stops (drop (length (show_int pid) + 1) buffer)
    → connect_to_peer given id fresh true pid ≡ some (some (server, (d, e)))
    → d.bytes ≡ some bytes
    → accept_connection (received (take (pos_part d.size) bytes)) buffer ≡ some (swapped e)
unfolding accept_connection connect_to_peer
accept_connection-connect_to_peer given fresh buffer server bytes id pid d e int room room' stop
      made has =
    let (r, e1, made1) = >>=-eq-some (client_path pid "r") _ made in
    let (w, e2, made2) = >>=-eq-some (client_path pid "w") _ made1 in
    let (server', e3, made3) = >>=-eq-some (server_path given id) _ made2 in
    let (d', e4, made4) = >>=-eq-some (hello fresh pid) _ made3 in
    let all : (server', (d', ends r w)) ≡ (server, (d, e)) =
      some-injective _ _ (some-injective _ _ made4) in
    let same_d : d' ≡ d = ap (λ p. p.1.0) all in
    let same_e : ends r w ≡ e = ap (λ p. p.1.1) all in
    let (d'', bytes'', b, n, said, has'', got, read) =
      accepted_hello fresh buffer pid int room room' stop in
    let hello_d : d'' ≡ d = some-injective _ _ (sym said ∙ e4) ∙ same_d in
    let same_bytes : bytes'' ≡ bytes =
      some-injective _ _ (sym has'' ∙ ap (λ x. x.bytes) hello_d ∙ has) in
    let got' : receive_data (received (take (pos_part d.size) bytes)) buffer ≡ some (b, n) =
      ap₂ (λ x y. receive_data (received (take (pos_part x.size) y)) buffer) (sym hello_d)
        (sym same_bytes)
      ∙ got in
    rw (got', read, e1, e2) (ap (λ x. some (swapped x)) same_e)
