-- ===== src/Database/Queries.antt =====
-- The queries of db.c. SQLite is a parameter: what a statement gives in the first row, by its text,
-- and what `sqlite3_exec` does. A statement that is only prepared does nothing.
use Prim.Native.String.{String}
use snuffin.Libc.Buffer.{same_bytes, c_string, store, sprintf}
use snuffin.Common.{
  ◌+◌, ◌%◌, zero, ◌==◌, ◌-◌, replicate, ◌++◌, some, if◌then◌else◌, codes, false, ◌/◌, none, ◌>>=◌,
  Option, Bool, suc, ℕ,
}
use snuffin.Common.Int.{pos, pos_part, ℤ}
use snuffin.Libc.Print.{show_int, Bytes}

pub record Sqlite (D : Type 0) : Type 0 where
  pub column_int : Bytes → ℕ → D → ℤ
  pub column_text : Bytes → ℕ → D → Option Bytes
  pub exec : Bytes → D → ℕ × D

-- The text of a statement about a player, into 400 bytes, and what it becomes as a string.
abbrev pub statement : ℕ → Bytes → Option Bytes
statement size text = sprintf (replicate size 0) text >>= λ sql. c_string sql

abbrev pub quoted : String → Bytes → String → Bytes
quoted before name behind = codes before ++ (name ++ codes behind)

module _ {D : Type 0} (sqlite : Sqlite D) where
  unfoldable pub is_user : Bytes → D → Option ℤ
  is_user name d = do
    sql ← statement 400 (quoted "SELECT Count(*) FROM player WHERE name = '" name "'")
    some (sqlite.column_int sql 0 d)

  abbrev pub select_player : Bytes → Option Bytes
  select_player name = statement 400 (quoted "SELECT * FROM player WHERE name = '" name "'")

  unfoldable pub is_password : Bytes → Bytes → D → Option ℤ
  unfolding same_bytes
  is_password name pass d = do
    sql ← select_player name
    let right : Bool = elim (sqlite.column_text sql 1 d) [
      | none ↦ false
      | some word ↦ same_bytes word pass
    ]
    some (pos (if right then 1 else 0))

  unfoldable pub create_user : Bytes → Bytes → D → Option (ℤ × D)
  create_user name pass d = do
    sql ← statement 500 (quoted "INSERT INTO player VALUES ('" name "','" ++ quoted "" pass "',0)")
    let (rc, d) = sqlite.exec sql d
    some (pos (if rc == 0 then 0 else 1), d)

  unfoldable pub get_highscore : Bytes → D → Option ℤ
  get_highscore name d = do sql ← select_player name; some (sqlite.column_int sql 2 d)

  -- The statement is prepared and not executed. The function has no `return`: it ends without a value.
  unfoldable pub set_highscore : Bytes → ℤ → D → Option (Option ℤ × D)
  set_highscore name highscore d = do
    sql ← statement 400 (
        codes "UPDATE player set score = "
        ++ (show_int highscore ++ quoted " where name = '" name "' "))
    some (none, d)

-- The first loop of `loadInt`, on fuel: the digits of a positive number.
unfoldable pub count_digits : ℕ → ℕ → ℕ
count_digits zero aux = 0
count_digits (suc fuel) aux =
    let rest = count_digits fuel (aux / 10) in if aux == 0 then 0 else suc rest

-- The second loop: the digits from the last to the first.
unfoldable pub write_digits : ℕ → ℕ → ℕ → Bytes → Option Bytes
write_digits zero value n buf = none
write_digits (suc fuel) value n buf =
    let rest = λ (b : Bytes). write_digits fuel (value / 10) (n - 1) b in
    if value == 0 then some buf else (store buf (n - 1) (value % 10 + b'0') >>= rest)

-- A number that is not positive has no digits here. Eleven rounds are enough for an `int`.
unfoldable pub load_int : Bytes → ℤ → Option Bytes
load_int buf value =
    let n = count_digits 11 (pos_part value) in
    store buf n 0 >>= λ buf. write_digits 11 (pos_part value) n buf
