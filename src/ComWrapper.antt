-- ===== src/ComWrapper.antt =====
-- comWrapper.c: the messages that one call of `receiveData` brings, handed out one by one.
pub mod Split
pub mod Reader
pub mod Queue
pub mod Single
mod Tests
