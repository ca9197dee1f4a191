-- ===== src/Frame.antt =====
-- mcanbus/src/frame.rs: identifiers, frames and their wire format.
pub mod Id
pub mod Data
pub mod Wire
pub mod Display
pub mod Debug
