-- ===== src/Apps.antt =====
-- The demonstrations: components/tcp_test and components/arp_scanner, clients of TCP and of ARP.
pub mod TcpTest
pub mod ArpScanner
