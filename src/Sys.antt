-- ===== src/Sys.antt =====
-- The globals of the network stack (protocols/arp.c, ipv4.c, icmpv4.c, tcp.c, udp.c), the structures
-- of protocols/tcp.h and arp.h that they hold, and the calls that every file makes.
pub mod Globals
pub mod Prims
pub use Globals.*
unfoldable pub use Prims.*
