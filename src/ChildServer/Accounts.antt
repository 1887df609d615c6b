-- ===== src/ChildServer/Accounts.antt =====
-- The request of childServer.c that makes an account: the password of a new user.
use snuffin.Marshalling.Tags.{sep}
use snuffin.Marshalling.RoundTrip.{calloc_room}
use snuffin.Libc.Strtol.{strtol-show_int}
use snuffin.ComWrapper.Queue.{read_data-IsPending, IsPending}
use snuffin.ChildServer.Login.{string_message}
use snuffin.Common.Int.{pos}
use snuffin.Marshalling.Fields.{sep_field, Fits}
use snuffin.Common.{
  [], drop-replicate, zero, length-replicate, suc, replicate, refl, length-append, arith, ◌∙◌, ap,
  ◌+◌, drop, append_assoc, none, ◌∷◌, ◌++◌, some, ◌≤◌, ◌≡◌, List, ◌^◌, ◌<◌, length, ℕ,
}
use snuffin.Libc.Buffer.{memcpy_overflow, memcpy_overflow, c_string_lem, copy_until_lem, Lacks}
use snuffin.ChildServer.State.{new_password, client_at, Memory, Server, Client, Db}
use snuffin.Libc.Print.{show_int, Bytes}
use snuffin.ChildServer.Requests.{resolve_new_password, resolve_expecting, resolve_request}
use snuffin.Marshalling.Decode.{Frame, copy_string, unmarsh_string}

unmarsh_string-long :
    (frame : Frame) (text stale dst : Bytes)
    → Lacks 0 text
    → length text < 2 ^ 31
    → Fits (pos (length text)) frame.num
    → length dst ≤ length text
    → unmarsh_string frame (string_message text ++ 0 ∷ stale) dst ≡ none
unfolding unmarsh_string copy_string
unmarsh_string-long frame text stale dst lacks size fits long = rw (
  append_assoc,
  sep_field (pos (length text)) _ frame.num fits,
  strtol-show_int (length text) (drop (length (show_int (pos (length text)))) frame.num)
      (omega arith) fits.1,
  calloc_room (length text),
  copy_until_lem 0 text stale (replicate (suc (length text)) 0) lacks
      (omega (arith, length-replicate (suc (length text)) zero)),
  drop-replicate (length text) zero,
  c_string_lem text [] lacks,
  memcpy_overflow dst (text ++ 0 ∷ []) (omega (arith, long, length-append text (0 ∷ []))),
)

-- A new user whose password has four bytes or more makes the server write behind the four bytes
-- that it has for the password. The buffer has room for the message, and the array `num` for the
-- length.
pub resolve_request-long_password :
    {D : Type 0} (db : Db D) (n : ℕ) (c : Client) (s : Server D) (text : Bytes) (ts : List Bytes)
    (memory : Memory)
    → client_at s.clients n ≡ some c
    → c.expecting ≡ new_password
    → IsPending s.reader (string_message text ∷ ts)
    → length (string_message text) < length memory.buffer
    → ((k : ℕ) → length (memory.fresh k) ≡ k)
    → Fits (pos (length text)) memory.frame.num
    → Lacks 0 text
    → length text < 2 ^ 31
    → 4 ≤ length text
    → resolve_request db memory n s ≡ none
unfolding resolve_request resolve_expecting resolve_new_password
resolve_request-long_password db n c s text ts memory here expecting waiting_msg room fresh fits
      lacks size long =
    let (out, read, hands) =
      read_data-IsPending s.reader (string_message text) ts memory.incoming memory.buffer
        waiting_msg room in
    let stale : Bytes = drop (length (string_message text) + 1) memory.buffer in
    let over : unmarsh_string memory.frame out.bytes (memory.fresh 4) ≡ none =
      ap (λ b. unmarsh_string memory.frame b (memory.fresh 4)) hands.bytes_eq
      ∙ unmarsh_string-long memory.frame text stale (memory.fresh 4) lacks size fits
          (omega (arith, fresh 4, long)) in
    let code : out.code ≡ 1 =
      ground (arith, hands.code_eq, length-append (show_int (pos (length text))) (sep ∷ text)) in
    rw (here, read, code, expecting, over) refl
