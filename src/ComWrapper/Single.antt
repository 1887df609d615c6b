-- ===== src/ComWrapper/Single.antt =====
-- `readData` of comWrapper.c when one whole message arrives and none was left.
use snuffin.ComWrapper.Split.{framed}
use snuffin.Com.Transport.{received}
use snuffin.Libc.Buffer.{Lacks}
use snuffin.Common.{
  sym, length-drop, ◌∙◌, drop, ap, arith, ◌≤◌, length-append, ◌+◌, append-nil, some, ◌≡◌, ◌∷◌, ◌++◌,
  ◌<◌, length, [],
}
use snuffin.ComWrapper.Queue.{read_data-received, IsPending}
use snuffin.Libc.Print.{Bytes}
use snuffin.ComWrapper.Reader.{read_data, Read, Reader}

pub read_data-single :
    (r : Reader) (t buffer : Bytes)
    → IsPending r []
    → Lacks 0 t
    → length t < length buffer
    → (out : Read) × (rest : Bytes) × (read_data r (received (t ++ 0 ∷ [])) buffer ≡ some out)
      × (out.bytes ≡ t ++ 0 ∷ rest)
      × (length out.bytes ≡ length buffer)
      × IsPending out.reader []
read_data-single r t buffer none_left lacks room =
    let one : framed (t ∷ []) ++ [] ≡ t ++ 0 ∷ [] = append-nil (t ++ 0 ∷ []) in
    let size : length (t ++ 0 ∷ []) ≡ length t + 1 = length-append t (0 ∷ []) in
    let fits : length (framed (t ∷ []) ++ []) ≤ length buffer =
      omega (arith, ap length one, size, room) in
    let (out, read, hands) = read_data-received r t [] [] buffer none_left (lacks, tt) tt fits in
    let left : Bytes = drop (length (framed (t ∷ []) ++ [])) buffer in
    let filled : Bytes = framed (t ∷ []) ++ left in
    let all : length out.bytes ≡ length buffer =
      ap length hands.bytes_eq
      ∙ omega (
        arith,
        ap length one,
        size,
        room,
        length-append t (0 ∷ drop (length t + 1) filled),
        length-drop (length t + 1) filled,
        length-append (framed (t ∷ [])) left,
        length-drop (length (framed (t ∷ []) ++ [])) buffer,
      ) in
    (
      out,
      drop (length t + 1) filled,
      ap (λ b. read_data r (received b) buffer) (sym one) ∙ read,
      hands.bytes_eq,
      all,
      hands.pending,
    )
