-- ===== src/Com/Fifo.antt =====
-- The names of the FIFOs of comFIFO.c, and the message by which a client makes itself known.
use snuffin.Marshalling.Fields.{show_int-Lacks_zero}
use snuffin.Com.Transport.{receive_data_lem, received, receive_data}
use snuffin.Libc.Strtol.{read_int-show_int, Stops, read_int}
use snuffin.Structs.{StreamData}
use snuffin.Libc.Print.{show_int, Bytes}
use snuffin.Libc.Buffer.{c_string_lem, memcpy_string, memcpy, c_string, sprintf}
use snuffin.Common.Int.{pos_part, pos, eqb_ℤ, IsInt, ℤ}
use snuffin.Common.{
  refl, subst, suc, take_append, arith, ◌≡◌, take, drop, ◌<◌, [], ◌++◌, ◌+◌, some, replicate, ◌==◌,
  length, none, if◌then◌else◌, ◌>>=◌, ◌∷◌, Option, codes, ℕ,
}
use Prim.Native.String.{String}

abbrev pub addr : Bytes
addr = codes "/tmp/server"

-- The path in `listenConnection`; `fresh` is what `malloc` gives. For number 0 no final 0 is copied.
unfoldable pub listen_path : Bytes → ℤ → Option Bytes
listen_path fresh id = do
  aux ← (if eqb_ℤ id (pos 0) then memcpy fresh addr else sprintf fresh (addr ++ show_int id))
  c_string aux

abbrev pub fifo_buffer : ℕ
fifo_buffer = 1024

-- `/tmp/client%d`, and the paths of the two FIFOs of the client with process number pid.
unfoldable pub client_path : ℤ → String → Option Bytes
client_path pid suffix = do
  aux ← sprintf (replicate fifo_buffer 0) (codes "/tmp/client" ++ show_int pid)
  base ← c_string aux
  path ← sprintf (replicate fifo_buffer 0) (base ++ codes suffix)
  c_string path

-- The address that the client was given loses a line end; the number of the server follows it,
-- unless it is 0.
unfoldable pub cut_line_end : Bytes → Bytes
cut_line_end [] = []
cut_line_end (c ∷ []) = if c == b'\n' then [] else c ∷ []
cut_line_end (c ∷ d ∷ s) = c ∷ cut_line_end (d ∷ s)

-- An empty address is read before its first byte: `none`.
unfoldable pub server_path : Bytes → ℤ → Option Bytes
unfolding cut_line_end
server_path given id = do
  text ← c_string given
  let base = cut_line_end text
  aux ← sprintf (replicate fifo_buffer 0) (if eqb_ℤ id (pos 0) then base else base ++ show_int id)
  path ← c_string aux
  if length text == 0 then none else some path

-- The message of `connectToPeer`: `@` and the process number, without a final 0. `fresh` is the
-- array that it is written to.
unfoldable pub hello : Bytes → ℤ → Option StreamData
hello fresh pid = do
  data' ← sprintf fresh (b'@' ∷ show_int pid)
  text ← c_string data'
  some (record { bytes = some data'; size = pos (length text) })

-- The process number that `acceptConnection` reads from its buffer.
unfoldable pub accepted_id : Bytes → Option ℤ
accepted_id [] = none
accepted_id (c ∷ rest) = let id = read_int rest in if c == b'@' then id else some (pos 0)

-- What the server receives of the message, and what it reads from it.
pub accepted_hello :
    (fresh buffer : Bytes) (pid : ℤ)
    → IsInt pid
    → length (show_int pid) + 1 < length fresh
    → length (show_int pid) + 1 < length buffer
    → Stops (drop (length (show_int pid) + 1) buffer)
    → (d : StreamData) × (bytes : Bytes) × (b : Bytes) × (n : ℤ) × (hello fresh pid ≡ some d)
      × (d.bytes ≡ some bytes)
      × (receive_data (received (take (pos_part d.size) bytes)) buffer ≡ some (b, n))
      × (accepted_id b ≡ some pid)
unfolding hello accepted_id sprintf
accepted_hello fresh buffer pid int room room' stop =
    let text : Bytes = b'@' ∷ show_int pid in
    let behind : Bytes = drop (length text + 1) fresh in
    let wrote : memcpy fresh (text ++ 0 ∷ []) ≡ some (text ++ 0 ∷ behind) =
      memcpy_string fresh text (omega (arith, room)) in
    let named : c_string (text ++ 0 ∷ behind) ≡ some text =
      c_string_lem text behind (omega arith, show_int-Lacks_zero pid) in
    let sent : take (length text) (text ++ 0 ∷ behind) ≡ text = take_append text (0 ∷ behind) in
    let got : receive_data (received text) buffer
        ≡ some (text ++ drop (length text) buffer, pos (length text)) =
      receive_data_lem text buffer (omega (arith, room')) in
    let next : length (show_int pid) + 1 ≡ suc (length (show_int pid)) = omega arith in
    (
      record { bytes = some (text ++ 0 ∷ behind); size = pos (length text) },
      text ++ 0 ∷ behind,
      text ++ drop (length text) buffer,
      pos (length text),
      rw (wrote, named) refl,
      refl,
      rw (sent) got,
      read_int-show_int pid (drop (suc (length (show_int pid))) buffer) int
          (subst (λ n. Stops (drop n buffer)) next stop),
    )

-- The bytes of the message, received into a buffer, give the process number of the client, if what
-- the buffer held behind them begins with no digit.
pub accepted_id-hello :
    (fresh buffer : Bytes) (pid : ℤ)
    → IsInt pid
    → length (show_int pid) + 1 < length fresh
    → length (show_int pid) + 1 < length buffer
    → Stops (drop (length (show_int pid) + 1) buffer)
    → (hello fresh pid >>= λ d. d.bytes >>= λ bytes.
        receive_data (received (take (pos_part d.size) bytes)) buffer >>= λ (b, n). accepted_id b)
      ≡ some pid
accepted_id-hello fresh buffer pid int room room' stop =
    let (d, bytes, b, n, said, has, got, id) =
      accepted_hello fresh buffer pid int room room' stop in
    rw (said, has, got) id
