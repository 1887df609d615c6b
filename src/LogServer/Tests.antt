-- ===== src/LogServer/Tests.antt =====
-- The theorem on mqserver.c at a concrete input.
use snuffin.Libc.Print.{Bytes, show_int}
use snuffin.Common.{refl, arith, ◌∷◌, ◌++◌, some, ◌≡◌, codes, [], true}
use snuffin.LogServer.{print_message-send_log, pos, print_message, show_int, prio_msg}
use snuffin.Log.{warning_level, send_log, Log}

abbrev log : Log
log = record { connected = true; pid = 4711; sent = [] }

print_message-send_log_example :
    (line : Bytes) × (send_log (codes "ok") warning_level log
      ≡ some (record log { sent = [] ++ (line, warning_level) ∷ [] }))
    × (print_message (line, warning_level)
        ≡ some (
            codes "WARNING"
            ++ (codes ": "
                ++ (show_int (pos 4711) ++ b'>' ∷ (codes "ok" ++ b'\n' ∷ []) ++ b'\n' ∷ []))))
unfolding prio_msg show_int
print_message-send_log_example =
    print_message-send_log (codes "ok") (codes "WARNING") warning_level log refl (omega arith)
      (ground arith, (ground arith, tt)) refl (omega arith)
