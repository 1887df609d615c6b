-- ===== src/Libc.antt =====
-- The parts of the C library that the program uses, on byte arrays: decimal printing (`%d`),
-- `strtol` and `atoi`, `strlen`, `memcpy` and the stores of a copying loop. A `char` is its code; an
-- array is the list of its bytes, and an access behind its end is `none`.
pub mod Print
pub mod Strtol
pub mod Buffer
