-- ===== src/Game.antt =====
-- game.c: the board, the snakes' first positions, the tick that moves them, and the colours.
pub mod Cells
pub mod Board
pub mod Load
pub mod Tick
pub mod Callback
pub mod Print
pub mod Valid
pub mod Moves
pub mod Invariant
pub mod Update
pub mod Ticks
pub mod Loading
mod Tests
