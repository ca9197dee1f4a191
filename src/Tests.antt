-- ===== src/Tests.antt =====
-- Tests on concrete inputs, and the theorems applied at inputs that meet their hypotheses.
mod Script
mod Host
pub mod FrameTests
pub mod IsoTpTests
pub mod SocketTests
pub mod ReaderTests
pub mod McpTests
pub mod IfaceTests
pub mod CangenTests
pub mod CandumpTests
