-- ===== src/Utility.antt =====
-- components/net_stack/utility: byte order, the internet checksum, and the address types.
pub mod Types
pub mod Endian
pub mod Print
pub mod Debug
pub mod Checksum
