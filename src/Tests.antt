-- ===== src/Tests.antt =====
-- Concrete runs and examples of the theorems.
pub mod Setup
pub mod Links
pub mod Packets
pub mod Segments
pub mod Delivery
pub mod Handshake
pub mod Runs
pub mod Start
