-- ===== src/IsoTp.antt =====
-- mcanbus/src/isotp.rs: ISO 15765-2 segmented transport over classic CAN.
pub mod Encode
pub mod Send
pub mod Segments
pub mod Receive
pub mod Request
pub mod RoundTrip
pub mod Termination
pub mod Exchange
pub mod FlowControl
pub mod Kept
