-- ===== src/Marshalling.antt =====
-- marshalling.c: the text form of the messages between client and server.
pub mod Tags
pub mod Places
pub mod Encode
pub mod Decode
pub mod Message
pub mod Fields
pub mod Sizes
pub mod RoundTrip
pub mod Grid
pub mod Faults
mod Tests
