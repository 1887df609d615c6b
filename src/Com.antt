-- ===== src/Com.antt =====
-- com.h and the two transports behind it, comSocket.c and comFIFO.c.
pub mod Transport
pub mod Fifo
pub mod Ends
pub mod Socket
pub mod Ports
mod Tests
mod SocketTests
