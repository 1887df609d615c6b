-- ===== src/LogServer.antt =====
-- mqserver.c: the log server, which prints the messages of log.c.
mod Tests
use snuffin.ChildServer.Logging.{connected_lem, show_int-length}
use snuffin.Marshalling.Fields.{show_int-Lacks_zero}
use snuffin.Common.Int.{pos}
use snuffin.Libc.Buffer.{memcpy_string, c_string_lem, sprintf, memcpy_lem, Lacks, c_string, memcpy}
use snuffin.Log.{send_log, error_level, warning_level, info_level, Log}
use snuffin.Libc.Print.{show_int, Bytes}
use snuffin.Common.{
  refl, All-append, suc, zero, length-replicate, drop, ◌-◌, length-append, arith, ◌∷◌, ◌++◌, ◌≤◌,
  ◌+◌, [], none, length, codes, ◌^◌, some, ◌<◌, replicate, true, ◌==◌, ◌≡◌, if◌then◌else◌, ◌>>=◌,
  Option, ℕ,
}

abbrev pub msg_buffer_size : ℕ
msg_buffer_size = 266

-- What stands in front of a message; a message of another level is not printed.
unfoldable pub prio_msg : ℕ → Option Bytes
prio_msg priority =
    if priority == info_level
    then some (codes "INFO")
    else if priority == warning_level
    then some (codes "WARNING")
    else if priority == error_level
    then some (codes "ERROR")
    else none

-- One round: the buffer is cleared, `mq_receive` writes the bytes of the message to its front, and
-- the line is printed.
unfoldable pub print_message : Bytes × ℕ → Option Bytes
unfolding prio_msg
print_message (message, priority) = do
  in_buffer ← memcpy (replicate msg_buffer_size 0) message
  text ← c_string in_buffer
  some (elim (prio_msg priority) [
    | none ↦ []
    | some prefix ↦ prefix ++ (codes ": " ++ (text ++ b'\n' ∷ []))
  ])

drop-replicate_zero : (n m : ℕ) → n < m → (more : Bytes) × (drop n (replicate m 0) ≡ 0 ∷ more)
drop-replicate_zero n zero h = absurd (omega (arith, h))
drop-replicate_zero zero (suc m) h = (replicate m 0, refl)
drop-replicate_zero (suc n) (suc m) h = drop-replicate_zero n m (omega (arith, h))

-- A message that log.c hands over is printed behind its level and the number of the process that
-- sent it, with an empty line behind. It holds no 0, the process number has at most seven digits, the
-- level is one of the three, and the line has at most 256 bytes, as the queue wants.
pub print_message-send_log :
    (msg prefix : Bytes) (level : ℕ) (l : Log)
    → l.connected ≡ true
    → l.pid < 10 ^ 7
    → Lacks 0 msg
    → prio_msg level ≡ some prefix
    → length (show_int (pos l.pid)) + length msg + 2 ≤ 256
    → (line : Bytes) × (send_log msg level l
        ≡ some (record l { sent = l.sent ++ (line, level) ∷ [] }))
      × (print_message (line, level)
          ≡ some (
              prefix
              ++ (codes ": "
                  ++ (show_int (pos l.pid) ++ b'>' ∷ (msg ++ b'\n' ∷ []) ++ b'\n' ∷ []))))
unfolding print_message sprintf
print_message-send_log msg prefix level l on pid lacks known fits =
    let line : Bytes = show_int (pos l.pid) ++ b'>' ∷ (msg ++ b'\n' ∷ []) in
    let size : length line ≡ length (show_int (pos l.pid)) + length msg + 2 = omega (
      arith,
      length-append (show_int (pos l.pid)) (b'>' ∷ (msg ++ b'\n' ∷ [])),
      length-append msg (b'\n' ∷ []),
    ) in
    let clean : Lacks 0 line =
      All-append _ (show_int (pos l.pid)) (b'>' ∷ (msg ++ b'\n' ∷ []))
        (show_int-Lacks_zero (pos l.pid))
        (omega arith, All-append _ msg (b'\n' ∷ []) lacks (omega arith, tt)) in
    let got : memcpy (replicate msg_buffer_size 0) line
        ≡ some (line ++ drop (length line) (replicate msg_buffer_size 0)) =
      memcpy_lem (replicate msg_buffer_size 0) line
        (omega (arith, size, fits, length-replicate {A = ℕ} msg_buffer_size 0)) in
    let (more, ends) =
      drop-replicate_zero (length line) msg_buffer_size (omega (arith, size, fits)) in
    let text : c_string (line ++ 0 ∷ more) ≡ some line = c_string_lem line more clean in
    let aux : Bytes = replicate (length msg + 10) 0 in
    let digits : length (show_int (pos l.pid)) ≤ 7 = show_int-length l.pid pid in
    let room : length line < length aux =
      omega (arith, size, digits, length-replicate {A = ℕ} (length msg + 10) 0) in
    let wrote : sprintf aux line ≡ some (line ++ 0 ∷ drop (length line + 1) aux) =
      memcpy_string aux line room in
    (
      line,
      connected_lem msg level l on wrote (c_string_lem line (drop (length line + 1) aux) clean),
      rw (got, ends, text, known) refl,
    )
