-- ===== src/Log.antt =====
-- log.c: a message goes to the queue of the log server, if that was found at the start. What
-- `mq_send` does with it is outside of the program: it only prints when it fails.
use snuffin.Libc.Buffer.{c_string, sprintf}
use snuffin.Common.Int.{pos}
use snuffin.Libc.Print.{show_int, Bytes}
use Prim.Native.String.{String}
use snuffin.Common.{
  codes, ◌>>=◌, ◌+◌, length, replicate, some, not, [], ◌∷◌, ◌++◌, true, List, Option, if◌then◌else◌,
  Bool, ℕ,
}

abbrev pub info_level : ℕ
info_level = 1

abbrev pub warning_level : ℕ
warning_level = 2

abbrev pub error_level : ℕ
error_level = 3

-- The globals of the process: whether the queue was opened, its process number, and what it handed
-- to `mq_send` so far.
pub record Log : Type 0 where
  pub connected : Bool
  pub pid : ℕ
  pub sent : List (Bytes × ℕ)

-- `opened` says whether `mq_open` succeeds; the result is the code that is returned.
unfoldable pub connect_log_server : Bool → Log → ℕ × Log
connect_log_server opened l = if opened then (1, record l { connected = true }) else (0, l)

-- `%d>%s\n`, into an array of ten bytes more than the message has.
unfoldable pub send_log : Bytes → ℕ → Log → Option Log
send_log msg level l =
    let line = show_int (pos l.pid) ++ b'>' ∷ (msg ++ b'\n' ∷ []) in
    if not l.connected
    then some l
    else sprintf (replicate (length msg + 10) 0) line >>= λ aux.
        c_string aux >>= λ text. some (record l { sent = l.sent ++ (text, level) ∷ [] })

unfoldable pub log_msg : String → Log → Option Log
log_msg msg l = send_log (codes msg) info_level l

unfoldable pub log_warning : String → Log → Option Log
log_warning msg l = send_log (codes msg) warning_level l

unfoldable pub log_error : String → Log → Option Log
log_error msg l = send_log (codes msg) error_level l
