-- ===== src/Com/Transport.antt =====
-- `receiveData` of comSocket.c and comFIFO.c. What `recv` or `read` does is an input: it fails, or it
-- gives bytes, none of them at the end of the stream, and at most BUFFER_SIZE of them.
use snuffin.Libc.Buffer.{memcpy_lem, memcpy}
use snuffin.Common.Int.{pos, negsuc, ℤ}
use snuffin.Libc.Print.{Bytes}
use snuffin.Common.{drop, ◌++◌, ◌≡◌, ◌≤◌, length, ◌>>=◌, some, Option, ℕ}

abbrev pub buffer_size : ℕ
buffer_size = 1024

pub data Incoming : Type 0 where
  failed : Incoming
  received : Bytes → Incoming

-- The bytes are written to the front of the buffer; the size is what the call returns.
unfoldable pub receive_data : Incoming → Bytes → Option (Bytes × ℤ)
receive_data failed buffer = some (buffer, negsuc 0)
receive_data (received bytes) buffer = memcpy buffer bytes >>= λ b. some (b, pos (length bytes))

pub receive_data_lem :
    (bytes buffer : Bytes)
    → length bytes ≤ length buffer
    → receive_data (received bytes) buffer
      ≡ some (bytes ++ drop (length bytes) buffer, pos (length bytes))
unfolding receive_data
receive_data_lem bytes buffer h = rw (memcpy_lem buffer bytes h)
