-- ===== src/ComWrapper/Tests.antt =====
-- The theorems on comWrapper.c at concrete inputs.
use snuffin.Common.Int.{pos}
use snuffin.Com.Transport.{received, failed}
use snuffin.Common.{drop, refl, none, some, arith, ◌++◌, length, [], ◌≡◌, replicate, ◌∷◌, codes}
use snuffin.ComWrapper.Queue.{
  read_data-received, read_times-IsPending, read_data-no_message, HandsOut, IsPending,
}
use snuffin.ComWrapper.Split.{split_lem, framed, stored, split}
use snuffin.Libc.Print.{Bytes}
use snuffin.ComWrapper.Reader.{read_times, start, Read, Reader, read_data}

abbrev one : Bytes
one = codes "41"

abbrev two : Bytes
two = codes "2ana#0#0#1"

split_lem_example :
    split
      (framed (one ∷ two ∷ []) ++ (codes "5" ++ 7 ∷ []))
      (pos (length (framed (one ∷ two ∷ []) ++ codes "5")))
    ≡ some (stored (one ∷ two ∷ []))
split_lem_example = split_lem (one ∷ two ∷ []) (codes "5") (7 ∷ []) (ground arith) (ground arith)

-- The second of two messages is left.
abbrev queue : Reader
queue = record { read_buffer = stored (one ∷ two ∷ []); r_buff_size = 2; current_pos = 1 }

abbrev room : Bytes
room = replicate 32 0

queue-IsPending : IsPending queue (two ∷ [])
queue-IsPending = (stored (one ∷ []), refl, refl, refl, ground arith)

read_times-IsPending_example :
    (r' : Reader) × (read_times (length (two ∷ [])) queue failed room ≡ some (two ∷ [], r'))
    × IsPending r' []
read_times-IsPending_example =
    read_times-IsPending (two ∷ []) queue failed room queue-IsPending (omega arith, tt)

read_data-received_example :
    (out : Read) × (read_data start (received (framed (one ∷ two ∷ []) ++ codes "5")) room
      ≡ some out)
    × HandsOut one
        (two ∷ [])
        (framed (one ∷ two ∷ [])
          ++ (codes "5" ++ drop (length (framed (one ∷ two ∷ []) ++ codes "5")) room))
        out
read_data-received_example =
    read_data-received start one (two ∷ []) (codes "5") room refl (ground arith) (ground arith)
      (omega arith)

read_data-no_message_example : read_data start (received []) room ≡ none
read_data-no_message_example = read_data-no_message start [] room refl tt (omega arith)
