-- ===== src/ChildServer.antt =====
-- childServer.c: the process of one lobby, its clients and their requests.
pub mod State
pub mod Notify
pub mod Requests
pub mod Match
pub mod Listen
pub mod Over
pub mod Slots
pub mod Logging
pub mod Start
pub mod Keeps
pub mod Protocol
pub mod Lobby
pub mod Begin
pub mod Verdict
pub mod Goodbye
pub mod Accounts
pub mod Leave
pub mod Login
mod Fixtures
mod Tests
mod RunTests
mod LoopTests
