-- ===== src/Startup.antt =====
-- Start-up: the init functions of protocols/arp.c, ipv4.c, tcp.c and udp.c, which create the queues
-- and the tasks, and wifi_begin of components/wifi_manager/src/wifi_manager.c, which calls them.
pub mod Kernel
pub mod Init
pub mod Wifi
pub use Kernel.*
unfoldable pub use Init.*
