-- ===== src/GameClient/Mode.antt =====
-- `changeMode` and `connHandler` of client.c, and the loops that call the first: the mode of the
-- player's terminal. `newt` is set before it is read.
use snuffin.Com.Socket.{Call, close_conn}
use snuffin.Common.Int.{eqb_ℤ, pos, ℤ}
use snuffin.Common.{ap, refl, List, if◌then◌else◌, Bool, ℕ, ◌≡◌, false, zero, suc}

-- `struct termios`: the two flags of `c_lflag` that are cleared, and all the rest.
pub record Termios : Type 0 where
  pub icanon : Bool
  pub echo : Bool
  pub others : List Bool

-- The terminal, and the static variable `oldt`.
pub record Terminal : Type 0 where
  pub now : Termios
  pub oldt : Termios

unfoldable pub raw : Termios → Termios
raw m = record m { icanon = false; echo = false }

unfoldable pub change_mode : ℤ → Terminal → Terminal
unfolding raw
change_mode dir t =
    if eqb_ℤ dir (pos 1)
    then record { now = raw t.now; oldt = t.now }
    else record t { now = t.oldt }

-- n rounds of the outer loop of `listenToPress`, as far as the mode goes. That of `getPass` begins
-- each round in the same way.
unfoldable pub press_rounds : ℕ → Terminal → Terminal
unfolding change_mode
press_rounds zero t = t
press_rounds (suc n) t = press_rounds n (change_mode (pos 1) t)

-- The process ends after it; `fd` is that of the connection.
unfoldable pub conn_handler : ℤ → Terminal → List Call × Terminal
unfolding change_mode
conn_handler fd t = (close_conn fd, change_mode (pos 0) t)

-- Once the mode that is kept is the one without echo, it stays.
press_rounds-raw :
    (n : ℕ) (m : Termios)
    → press_rounds n (record { now = raw m; oldt = raw m }) ≡ record { now = raw m; oldt = raw m }
unfolding press_rounds change_mode raw
press_rounds-raw zero m = refl
press_rounds-raw (suc n) m = press_rounds-raw n m

-- The mode that is left after n rounds and the end.
abbrev pub left_in : ℕ → Terminal → Termios
left_in zero t = t.oldt
left_in (suc zero) t = t.now
left_in (suc (suc n)) t = raw t.now

-- When `connHandler` ends the program during the first round of the loop, the terminal is in the mode
-- that it was in before the loop. In any later round it is left without line mode and echo, and
-- before the loop it gets what the static variable holds.
pub conn_handler-press_rounds :
    (fd : ℤ) (n : ℕ) (t : Terminal) → (conn_handler fd (press_rounds n t)).1.now ≡ left_in n t
unfolding conn_handler press_rounds change_mode
conn_handler-press_rounds fd zero t = refl
conn_handler-press_rounds fd (suc zero) t = refl
conn_handler-press_rounds fd (suc (suc n)) t = ap (λ u. u.oldt) (press_rounds-raw n t.now)
