-- ===== src/Socket.antt =====
-- mcanbus/src/socket.rs.
pub mod Kernel
pub mod Ledger
pub mod Filter
pub mod Timestamp
pub mod Transfer
pub mod Open
pub mod RawFd
pub mod Link
pub mod Kept
