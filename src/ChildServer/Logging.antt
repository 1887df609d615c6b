-- ===== src/ChildServer/Logging.antt =====
-- A log message is always sent: the array of `sendLog` has room for the process number.
use snuffin.Common.Int.{pos}
use Prim.Native.String.{String}
use snuffin.Common.{
  codes, ◌≤◌, true, drop, length-replicate, length-append, arith, ◌+◌, replicate, length, refl, inr,
  [], ◌==◌, inl, Bool-cases, ◌^◌, ◌<◌, some, ◌≡◌, ℕ, ◌∷◌, ◌++◌,
}
use snuffin.Libc.Print.{length-digits_le, show_int, Bytes}
use snuffin.Libc.Buffer.{memcpy, memcpy_string, sprintf, c_string}
use snuffin.Log.{info_level, log_msg, Log, send_log}

c_string_ended : (t r : Bytes) → (u : Bytes) × (c_string (t ++ 0 ∷ r) ≡ some u)
unfolding c_string
c_string_ended [] r = ([], refl)
c_string_ended (c ∷ t) r = elim (Bool-cases (c == 0)) [
  | inl zero ↦ ([], rw (zero) refl)
  | inr other ↦ let (u, e) = c_string_ended t r in (c ∷ u, rw (other, e) refl)
]

pub show_int-length : (n : ℕ) → n < 10 ^ 7 → length (show_int (pos n)) ≤ 7
unfolding show_int
show_int-length n h = length-digits_le 6 n h

pub connected_lem :
    (msg : Bytes) (level : ℕ) (l : Log) {aux text : Bytes}
    → l.connected ≡ true
    → sprintf (replicate (length msg + 10) 0) (show_int (pos l.pid) ++ b'>' ∷ (msg ++ b'\n' ∷ []))
      ≡ some aux
    → c_string aux ≡ some text
    → send_log msg level l ≡ some (record l { sent = l.sent ++ (text, level) ∷ [] })
unfolding send_log
connected_lem msg level l on e f = ground arith

-- A process number of at most seven digits, as Linux has them.
pub send_log_lem :
    (msg : Bytes) (level : ℕ) (l : Log)
    → l.pid < 10 ^ 7
    → (l' : Log) × (send_log msg level l ≡ some l') × (l'.pid ≡ l.pid)
unfolding send_log sprintf
send_log_lem msg level l h =
    let line : Bytes = show_int (pos l.pid) ++ b'>' ∷ (msg ++ b'\n' ∷ []) in
    let buf : Bytes = replicate (length msg + 10) 0 in
    let buf_size : length buf ≡ length msg + 10 = length-replicate {A = ℕ} (length msg + 10) 0 in
    let size : length line < length buf = omega (
      arith,
      length-append (show_int (pos l.pid)) (b'>' ∷ (msg ++ b'\n' ∷ [])),
      length-append msg (b'\n' ∷ []),
      show_int-length l.pid h,
      buf_size,
    ) in
    let (u, e) = c_string_ended line (drop (length line + 1) buf) in
    let wrote : memcpy buf (line ++ 0 ∷ []) ≡ some (line ++ 0 ∷ drop (length line + 1) buf) =
      memcpy_string buf line size in
    elim (Bool-cases l.connected) [
      | inl on ↦ (
        record l { sent = l.sent ++ (u, level) ∷ [] },
        connected_lem msg level l on wrote e,
        refl,
      )
      | inr off ↦ (l, rw (off) refl, refl)
    ]

pub log_msg_lem :
    (msg : String) (l : Log) {l' : Log}
    → send_log (codes msg) info_level l ≡ some l'
    → log_msg msg l ≡ some l'
unfolding log_msg
log_msg_lem msg l e = e
