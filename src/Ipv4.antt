-- ===== src/Ipv4.antt =====
-- components/net_stack/protocols/ipv4.c: handing packets over, sending and receiving them.
pub mod Transmit
pub mod Header
pub mod Output
pub mod Input
