-- ===== src/Database/Shared.antt =====
-- The shared memory of dbconst.h, up to the mutex.
use snuffin.Libc.Buffer.{c_string, memcpy}
use snuffin.Common.Int.{negsuc, ◌-ℤ◌, pos, ℤ}
use snuffin.Libc.Print.{Bytes}
use snuffin.Common.{◌++◌, take, some, ◌-◌, ◌>>=◌, drop, ltb, ◌%◌, Option, if◌then◌else◌, ℕ}

abbrev pub is_user_command : ℕ
is_user_command = b'1'

abbrev pub is_password_command : ℕ
is_password_command = b'2'

abbrev pub get_highscore_command : ℕ
get_highscore_command = b'3'

abbrev pub set_highscore_command : ℕ
set_highscore_command = b'4'

abbrev pub create_user_command : ℕ
create_user_command = b'5'

abbrev pub ready : ℕ
ready = 0

abbrev pub return_pos : ℕ
return_pos = 256

abbrev pub first_argument : ℕ
first_argument = 1

abbrev pub second_argument : ℕ
second_argument = 64

abbrev pub type_pos : ℕ
type_pos = 0

-- `memcpy(shmPointer + offset, s, …)`. A write behind the memory would reach the mutex: `none`.
unfoldable pub write_at : Bytes → ℕ → Bytes → Option Bytes
write_at shm offset s = memcpy (drop offset shm) s >>= λ b. some (take offset shm ++ b)

-- The string at `shmPointer + offset`.
unfoldable pub string_at : Bytes → ℕ → Option Bytes
string_at shm offset = c_string (drop offset shm)

-- A `char`, signed, as an `int`.
unfoldable pub char_value : ℕ → ℤ
char_value b = if ltb b 128 then pos b else pos b -ℤ pos 256

-- `(char) n`, as a byte.
unfoldable pub to_byte : ℤ → ℕ
to_byte (pos n) = n % 256
to_byte (negsuc n) = 255 - n % 256
