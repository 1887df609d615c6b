-- ===== src/SuperServer.antt =====
-- superServer.c: the table of lobbies.
pub mod Join
pub mod Lobbies
pub mod Turns
pub mod Entries
pub mod Steps
mod Tests
