-- ===== src/Database.antt =====
-- db.c, the process of the data base, and dbManager.c, which asks it through shared memory.
pub mod Shared
pub mod Queries
pub mod Requests
pub mod Arguments
pub mod Answers
pub mod Scores
pub mod Undefined
mod Tests
pub mod Lobby
pub mod Digits
