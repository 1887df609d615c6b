-- ===== src/ComWrapper/Queue.antt =====
-- The globals of comWrapper.c as a queue of messages: `readData` takes the first message, and asks
-- the connection for more only when there is none.
use snuffin.Common.Int.{pos, ℤ}
use snuffin.Com.Transport.{receive_data_lem, receive_data, received, Incoming}
use snuffin.ComWrapper.Split.{split_lem, split, framed, stored}
use snuffin.Libc.Buffer.{c_string, memcpy_string, memcpy, c_string_lem, Lacks}
use snuffin.Common.{
  subst, length-drop, length-append, refl, append_assoc, suc, get_middle, sym, none, ap, false, ◌≤◌,
  ◌==◌, ◌∙◌, ap₂, arith, get_elem?, All, some, ◌+◌, drop, ◌<◌, [], length, ◌++◌, leb, if◌then◌else◌,
  ◌∷◌, ◌≡◌, ℕ, List,
}
use snuffin.Libc.Print.{Bytes}
use snuffin.ComWrapper.Reader.{read_times, refill, read_data, advance, Read, next_string, Reader}

-- The strings that are left, in order, without the zeros behind them.
abbrev pub IsPending : Reader → List Bytes → Type 0
IsPending r [] = r.read_buffer ≡ []
IsPending r (t ∷ ts) =
    (done : List Bytes) × (r.read_buffer ≡ done ++ stored (t ∷ ts))
    × (r.r_buff_size ≡ length done + length (t ∷ ts))
    × (r.current_pos ≡ length done)
    × All (Lacks 0) (t ∷ ts)

-- A message of one byte or none counts as the end of the connection.
abbrev pub code_of : Bytes → ℕ
code_of t = if leb (length t) 1 then 0 else 1

-- What `readData` returns when it hands out t: its code and size, the caller's buffer with t and its
-- 0 in front, and ts left.
pub record HandsOut (t : Bytes) (ts : List Bytes) (buffer : Bytes) (r : Read) : Type 0 where
  pub code_eq : r.code ≡ code_of t
  pub bytes_eq : r.bytes ≡ t ++ 0 ∷ drop (length t + 1) buffer
  pub size_eq : r.size ≡ length t
  pub pending : IsPending r.reader ts

advance-IsPending :
    (r : Reader) (t : Bytes) (ts : List Bytes) → IsPending r (t ∷ ts) → IsPending (advance r) ts
unfolding advance
advance-IsPending r t [] (done, e, size, position, lacks) = ground arith
advance-IsPending r t (u ∷ ts) (done, e, size, position, lacks) =
    let item : Bytes = t ++ 0 ∷ 0 ∷ [] in
    let last : (r.current_pos + 1 == r.r_buff_size) ≡ false = ground arith in
    rw last (
      done ++ item ∷ [],
      e ∙ sym (append_assoc done (item ∷ []) (stored (u ∷ ts))),
      omega (arith, length-append done (item ∷ [])),
      omega (arith, length-append done (item ∷ [])),
      lacks.1,
    )

next_string_lem :
    (r : Reader) (t : Bytes) (ts : List Bytes) (buffer : Bytes)
    → IsPending r (t ∷ ts)
    → length t < length buffer
    → (out : Read) × (next_string r buffer ≡ some out) × HandsOut t ts buffer out
unfolding next_string
next_string_lem r t ts buffer h room =
    let (done, e, size, position, lacks) = h in
    let got : get_elem? r.read_buffer r.current_pos ≡ some (t ++ 0 ∷ 0 ∷ []) =
      ap₂ get_elem? e position ∙ get_middle done (t ++ 0 ∷ 0 ∷ []) (stored ts) in
    let written : memcpy buffer (t ++ 0 ∷ []) ≡ some (t ++ 0 ∷ drop (length t + 1) buffer) =
      memcpy_string buffer t room in
    (
      record {
        code = code_of t;
        bytes = t ++ 0 ∷ drop (length t + 1) buffer;
        size = length t;
        reader = advance r;
      },
      rw (got, c_string_lem t (0 ∷ []) lacks.0, written),
      record {
        code_eq = refl;
        bytes_eq = refl;
        size_eq = refl;
        pending = advance-IsPending r t ts h;
      },
    )

refill_kept :
    (r : Reader) (done : List Bytes) (t : Bytes) (ts : List Bytes) (incoming : Incoming)
    (buffer : Bytes)
    → r.read_buffer ≡ done ++ stored (t ∷ ts)
    → refill r incoming buffer ≡ some (r, buffer)
unfolding refill
refill_kept r [] t ts incoming buffer e = ground arith
refill_kept r (s ∷ done) t ts incoming buffer e = ground arith

-- With messages left, `readData` hands out the first of them, whatever the connection would bring,
-- if the caller's buffer has room for it.
pub read_data-IsPending :
    (r : Reader) (t : Bytes) (ts : List Bytes) (incoming : Incoming) (buffer : Bytes)
    → IsPending r (t ∷ ts)
    → length t < length buffer
    → (out : Read) × (read_data r incoming buffer ≡ some out) × HandsOut t ts buffer out
unfolding read_data
read_data-IsPending r t ts incoming buffer h room =
    let (out, e, hands) = next_string_lem r t ts buffer h room in
    (out, rw (refill_kept r h.0 t ts incoming buffer h.1, e), hands)

refill_received :
    (r : Reader) (incoming : Incoming) (buffer : Bytes) {b : Bytes} {size : ℤ} {ss : List Bytes}
    → r.read_buffer ≡ []
    → receive_data incoming buffer ≡ some (b, size)
    → split b size ≡ some ss
    → refill r incoming buffer
      ≡ some (record { read_buffer = ss; r_buff_size = length ss; current_pos = 0 }, b)
unfolding refill
refill_received r incoming buffer e f g = ground arith

length-stored : (ss : List Bytes) → length (stored ss) ≡ length ss
length-stored [] = refl
length-stored (s ∷ ss) = ap suc (length-stored ss)

-- With none left it receives, at most what the caller's buffer has room for: the messages that
-- arrive whole, at least one, are queued, and the first is handed out.
pub read_data-received :
    (r : Reader) (t : Bytes) (ts : List Bytes) (tail buffer : Bytes)
    → IsPending r []
    → All (Lacks 0) (t ∷ ts)
    → Lacks 0 tail
    → length (framed (t ∷ ts) ++ tail) ≤ length buffer
    → (out : Read) × (read_data r (received (framed (t ∷ ts) ++ tail)) buffer ≡ some out)
      × HandsOut t ts
          (framed (t ∷ ts) ++ (tail ++ drop (length (framed (t ∷ ts) ++ tail)) buffer))
          out
unfolding read_data
read_data-received r t ts tail buffer none_left lacks ended room =
    let bytes : Bytes = framed (t ∷ ts) ++ tail in
    let filled : Bytes = framed (t ∷ ts) ++ (tail ++ drop (length bytes) buffer) in
    let got : receive_data (received bytes) buffer ≡ some (filled, pos (length bytes)) =
      receive_data_lem bytes buffer room
      ∙ ap (λ l. some (l, pos (length bytes)))
          (append_assoc (framed (t ∷ ts)) tail (drop (length bytes) buffer)) in
    let ss : List Bytes = stored (t ∷ ts) in
    let r' : Reader = record { read_buffer = ss; r_buff_size = length ss; current_pos = 0 } in
    let whole : split filled (pos (length bytes)) ≡ some ss =
      split_lem (t ∷ ts) tail (drop (length bytes) buffer) lacks ended in
    let (out, e, hands) =
      next_string_lem r' t ts filled ([], refl, omega (arith, length-stored (t ∷ ts)), refl, lacks)
        (omega (
          arith,
          length-append (t ++ 0 ∷ framed ts) (tail ++ drop (length bytes) buffer),
          length-append t (0 ∷ framed ts),
        )) in
    (out, rw (refill_received r (received bytes) buffer none_left got whole, e), hands)

-- With none left and no whole message in what arrives, as at the end of a stream, when no byte is
-- received, it reads a string through the null pointer. What arrives fits the caller's buffer.
pub read_data-no_message :
    (r : Reader) (tail buffer : Bytes)
    → IsPending r []
    → Lacks 0 tail
    → length tail ≤ length buffer
    → read_data r (received tail) buffer ≡ none
unfolding read_data next_string
read_data-no_message r tail buffer none_left ended room =
    let got : receive_data (received tail) buffer
        ≡ some (tail ++ drop (length tail) buffer, pos (length tail)) =
      receive_data_lem tail buffer room in
    rw (
      refill_received r (received tail) buffer none_left got
        (split_lem [] tail (drop (length tail) buffer) tt ended))

-- All messages that are left are handed out in their order, and none twice, if the caller's buffer
-- has room for each; then nothing is left.
pub read_times-IsPending :
    (ts : List Bytes) (r : Reader) (incoming : Incoming) (buffer : Bytes)
    → IsPending r ts
    → All (λ t. length t < length buffer) ts
    → (r' : Reader) × (read_times (length ts) r incoming buffer ≡ some (ts, r')) × IsPending r' []
unfolding read_times
read_times-IsPending [] r incoming buffer h room = (r, refl, h)
read_times-IsPending (t ∷ ts) r incoming buffer h room =
    let (out, e, hands) = read_data-IsPending r t ts incoming buffer h room.0 in
    let lacks : Lacks 0 t = h.4.0 in
    let text : c_string out.bytes ≡ some t =
      ap c_string hands.bytes_eq ∙ c_string_lem t (drop (length t + 1) buffer) lacks in
    let size : length out.bytes ≡ length buffer =
      ap length hands.bytes_eq
      ∙ omega (
        arith,
        length-append t (0 ∷ drop (length t + 1) buffer),
        length-drop (length t + 1) buffer,
        room.0,
      ) in
    let room' : All (λ u. length u < length out.bytes) ts =
      subst (λ n. All (λ u. length u < n) ts) (sym size) room.1 in
    let (r', e', empty) =
      read_times-IsPending ts out.reader incoming out.bytes hands.pending room' in
    (r', rw (e, text, e'), empty)
