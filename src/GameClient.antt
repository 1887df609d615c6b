-- ===== src/GameClient.antt =====
-- client.c: the lobby and the keys of a player.
pub mod Lobby
pub mod Keys
pub mod Table
pub mod Typing
pub mod Line
pub mod Editor
pub mod Dialogue
pub mod Hear
pub mod LogIn
pub mod Screen
pub mod Render
pub mod Loops
pub mod Watch
pub mod Join
pub mod Way
pub mod Mode
mod Fixtures
mod Tests
mod PlayTests
mod WayTests
