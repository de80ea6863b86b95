-- ===== src/Arp.antt =====
-- components/net_stack/protocols/arp.c: the cache, the requests that wait for an answer, and the
-- ARP task.
pub mod Cache
pub mod Pending
pub mod Packets
pub mod Task
