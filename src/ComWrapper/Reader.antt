-- ===== src/ComWrapper/Reader.antt =====
-- `readData` of comWrapper.c, over the three globals that it keeps, and the queue that they are.
use snuffin.Libc.Buffer.{memcpy, c_string}
use snuffin.ComWrapper.Split.{split}
use snuffin.Com.Transport.{receive_data, Incoming}
use snuffin.Common.{
  zero, suc, leb, ◌==◌, if◌then◌else◌, ◌+◌, some, get_elem?, ◌>>=◌, length, ◌∷◌, ◌++◌, Option, List,
  [], ℕ,
}
use snuffin.Libc.Print.{Bytes}

-- An empty `read_buffer` is the null pointer.
pub record Reader : Type 0 where
  pub read_buffer : List Bytes
  pub r_buff_size : ℕ
  pub current_pos : ℕ

abbrev pub start : Reader
start = record { read_buffer = []; r_buff_size = 0; current_pos = 0 }

-- The result: the code that is returned, the caller's buffer and its size, and the globals.
pub record Read : Type 0 where
  pub code : ℕ
  pub bytes : Bytes
  pub size : ℕ
  pub reader : Reader

-- The call of `receiveData` and `split`, if nothing is left.
unfoldable pub refill : Reader → Incoming → Bytes → Option (Reader × Bytes)
refill r incoming buffer = elim r.read_buffer [
  | [] ↦ do
    (buffer, size) ← receive_data incoming buffer
    strings ← split buffer size
    some (record { read_buffer = strings; r_buff_size = length strings; current_pos = 0 }, buffer)
  | s ∷ ss ↦ some (r, buffer)
]

-- The step to the next string; behind the last, the strings and their array are freed.
unfoldable pub advance : Reader → Reader
advance r =
    if r.current_pos + 1 == r.r_buff_size
    then record r { read_buffer = []; current_pos = 0 }
    else record r { current_pos = r.current_pos + 1 }

-- The next string is handed out.
unfoldable pub next_string : Reader → Bytes → Option Read
unfolding advance
next_string r buffer = do
  s ← get_elem? r.read_buffer r.current_pos
  text ← c_string s
  bytes ← memcpy buffer (text ++ 0 ∷ [])
  some (record {
    code = if leb (length text) 1 then 0 else 1;
    bytes = bytes;
    size = length text;
    reader = advance r;
  })

-- `incoming` is what `receiveData` would bring on the connection asked for; it is only used if no
-- string is left.
unfoldable pub read_data : Reader → Incoming → Bytes → Option Read
unfolding refill next_string
read_data r incoming buffer = do (r, buffer) ← refill r incoming buffer; next_string r buffer

-- n calls in a row, and the texts that they leave in the caller's buffer, in their order.
unfoldable pub read_times : ℕ → Reader → Incoming → Bytes → Option (List Bytes × Reader)
read_times zero r incoming buffer = some ([], r)
read_times (suc n) r incoming buffer = do
  out ← read_data r incoming buffer
  text ← c_string out.bytes
  (texts, r) ← read_times n out.reader incoming out.bytes
  some (text ∷ texts, r)
