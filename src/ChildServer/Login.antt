-- ===== src/ChildServer/Login.antt =====
-- The first request of a client: `resolveRequest` from the bytes that arrive to the answer.
use snuffin.Marshalling.Sizes.{marsh_string_lem}
use snuffin.Marshalling.RoundTrip.{unmarsh-marsh_string}
use snuffin.ComWrapper.Reader.{Reader}
use snuffin.ComWrapper.Queue.{read_data-IsPending, IsPending}
use snuffin.Marshalling.Fields.{Fits}
use snuffin.Marshalling.Decode.{unmarsh_string, Frame}
use snuffin.ChildServer.Start.{send_boolean_lem, flag}
use snuffin.Libc.Buffer.{c_string_lem, Lacks, c_string}
use snuffin.ChildServer.Requests.{validate_user, resolve_expecting, resolve_request}
use snuffin.Common.Int.{eqb_ℤ, ℤ, pos}
use snuffin.Marshalling.Tags.{sep, string_tag}
use snuffin.Common.{
  inr, inl, Bool-cases, ◌∙◌, ap, length-append, arith, append_assoc, if◌then◌else◌, ◌+◌, drop, List,
  ◌^◌, ◌<◌, refl, [], set, false, true, some, ◌++◌, ◌≡◌, length, ◌∷◌, ℕ,
}
use snuffin.Libc.Print.{show_int, Bytes}
use snuffin.ChildServer.State.{user, Memory, new_password, password, client_at, Server, Client, Db}

-- The text of a string message, without the 0 that ends it.
abbrev pub string_message : Bytes → Bytes
string_message text = string_tag ∷ show_int (pos (length text)) ++ sep ∷ text

read_string :
    (frame : Frame) (text stale dst : Bytes)
    → Lacks 0 text
    → length text < 2 ^ 31
    → Fits (pos (length text)) frame.num
    → length text < length dst
    → unmarsh_string frame (string_message text ++ 0 ∷ stale) dst
      ≡ some (1, text ++ 0 ∷ drop (length text + 1) dst)
read_string frame text stale dst lacks size fits room =
    let ended : c_string (text ++ 0 ∷ []) ≡ some text = c_string_lem text [] lacks in
    let trip =
      unmarsh-marsh_string (text ++ 0 ∷ []) dst text frame stale ended lacks size fits room in
    let whole : (string_message text ++ 0 ∷ []) ++ stale ≡ string_message text ++ 0 ∷ stale =
      append_assoc (string_message text) (0 ∷ []) stale in
    rw (marsh_string_lem (text ++ 0 ∷ []) text ended size, whole) at trip

-- What is known of the client after it has given its name.
abbrev pub named : Bytes → ℕ → ℤ → Client → Client
named text expecting score c = record c {
  expecting = expecting;
  score = some score;
  name = some (text ++ 0 ∷ []);
}

-- A client of which a name is expected, and whose next message is a string, is known by that string
-- from then on. If the data base has it, the client gets TRUE, its score is that of the data base,
-- and the password is expected; if not, it gets FALSE, its score is 0, and a new password is
-- expected. The rest of what arrived is left for later. The data base answers, the string has no 0,
-- the buffers have room for the message, and the array `num` for the length.
pub resolve_request-user :
    {D : Type 0} (db : Db D) (n : ℕ) (c : Client) (s : Server D) (text : Bytes) (ts : List Bytes)
    (memory : Memory) {e score : ℤ} {d d' : D}
    → client_at s.clients n ≡ some c
    → db.exist_user text s.db ≡ some (e, d)
    → db.get_high_score text d ≡ some (score, d')
    → c.expecting ≡ user
    → IsPending s.reader (string_message text ∷ ts)
    → length (string_message text) < length memory.buffer
    → ((k : ℕ) → length (memory.fresh k) ≡ k)
    → Fits (pos (length text)) memory.frame.num
    → Lacks 0 text
    → length text < 2 ^ 31
    → (reader : Reader) × IsPending reader ts
      × (resolve_request db memory n s
          ≡ some (
              if eqb_ℤ e (pos 0)
              then record s {
                reader = reader;
                clients = set s.clients n (some (named text new_password (pos 0) c));
                sent = s.sent ++ (c.con, flag false) ∷ [];
                db = d;
              }
              else record s {
                reader = reader;
                clients = set s.clients n (some (named text password score c));
                sent = s.sent ++ (c.con, flag true) ∷ [];
                db = d';
              }))
unfolding resolve_request resolve_expecting validate_user
resolve_request-user {D} db n c s text ts memory {e} {score} {d} {d'} here asked scored expecting
      waiting_msg room fresh fits lacks size =
    let (out, read, hands) =
      read_data-IsPending s.reader (string_message text) ts memory.incoming memory.buffer
        waiting_msg room in
    let s1 : Server D = record s { reader = out.reader } in
    let stale : Bytes = drop (length (string_message text) + 1) memory.buffer in
    let len : length text < length (memory.fresh out.size) = omega (
      arith,
      fresh out.size,
      hands.size_eq,
      length-append (show_int (pos (length text))) (sep ∷ text),
    ) in
    let str : Bytes = text ++ 0 ∷ drop (length text + 1) (memory.fresh out.size) in
    let got : unmarsh_string memory.frame out.bytes (memory.fresh out.size) ≡ some (1, str) =
      ap (λ b. unmarsh_string memory.frame b (memory.fresh out.size)) hands.bytes_eq
      ∙ read_string memory.frame text stale (memory.fresh out.size) lacks size fits len in
    let code : out.code ≡ 1 =
      ground (arith, hands.code_eq, length-append (show_int (pos (length text))) (sep ∷ text)) in
    let name : c_string str ≡ some text = c_string_lem text _ lacks in
    elim (Bool-cases (eqb_ℤ e (pos 0))) [
      | inl unknown ↦ (
        out.reader,
        hands.pending,
        rw
            (
              here,
              read,
              code,
              expecting,
              got,
              name,
              asked,
              unknown,
              send_boolean_lem c.con false (record s1 { db = d }),
              here,
            )
            refl,
      )
      | inr known ↦ (
        out.reader,
        hands.pending,
        rw
            (
              here,
              read,
              code,
              expecting,
              got,
              name,
              asked,
              known,
              scored,
              send_boolean_lem c.con true (record s1 { db = d' }),
              here,
            )
            refl,
      )
    ]
