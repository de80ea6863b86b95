-- ===== src/Tcp.antt =====
-- components/net_stack/protocols/tcp.c, by parts: the port table, sending, receiving, commands and
-- the task's loop.
pub mod Ports
pub mod Segment
pub mod Send
pub mod Input
pub mod Acks
pub mod States
pub mod Receive
pub mod Commands
pub mod Task
