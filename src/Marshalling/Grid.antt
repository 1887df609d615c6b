-- ===== src/Marshalling/Grid.antt =====
-- The cells of a square board: `marshBoard` writes them row by row, and `unmarshBoard` reads them
-- back.
pub mod Shape
pub mod Write
pub mod Read
