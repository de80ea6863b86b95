-- ===== src/Ipv4/Header/Verify.antt =====
-- ipv4.c: the header that a sender writes, as a receiver reads and tests it.
use ip.Base.{ℕ, ◌<◌, ◌≡◌, refl, arith, List, [], bit_and_nibble}
use ip.Utility.Types.{Ipv4Addr, put_ip}
use ip.Utility.Endian.{load16-put16}
use ip.Utility.Checksum.{net_checksum}
use ip.Utility.Checksum.Sum.{IsBytes}
use ip.Utility.Checksum.Verify.{IsEven, even_nil, even_cons, net_checksum_filled}
use ip.Tcp.Send.Checksum.{IsIp}
use ip.Ipv4.Header.{put_front, header_checksum, packet_bytes, read_ipv4}

front-IsEven : (n protocol : ℕ) → IsEven (put_front n protocol [])
front-IsEven n protocol = search (even_nil, even_cons) depth 10

front-IsBytes : (n protocol : ℕ) → protocol < 256 → IsBytes (put_front n protocol [])
front-IsBytes n protocol h = omega arith

-- For a protocol and addresses in range, the checksum of the header of a packet that was sent is
-- 0, as the receiver demands.
pub header_verifies :
    (n protocol : ℕ) (src dst : Ipv4Addr)
    → protocol < 256
    → IsIp src
    → IsIp dst
    → net_checksum (packet_bytes n protocol src dst []) 20 ≡ 0
unfolding packet_bytes header_checksum
header_verifies n protocol src dst hp hs hd =
    net_checksum_filled (put_front n protocol []) (put_ip src (put_ip dst []))
      (front-IsEven n protocol) (front-IsBytes n protocol hp) (omega arith) (omega arith)

-- The checksum reads no more than the header.
pub header_only :
    (n protocol : ℕ) (src dst : Ipv4Addr) (rest : List ℕ)
    → net_checksum (packet_bytes n protocol src dst rest) 20
      ≡ net_checksum (packet_bytes n protocol src dst []) 20
unfolding packet_bytes net_checksum
header_only n protocol src dst rest = refl

-- The fields that a receiver reads are those that the sender of a packet wrote, for a total length
-- within 16 bits.
pub read_ipv4-packet_bytes :
    (n protocol : ℕ) (src dst : Ipv4Addr) (payload : List ℕ)
    → n < 65536
    → read_ipv4 (packet_bytes n protocol src dst payload)
      ≡ record { version = 4; ihl = 5; total_length = n; protocol = protocol; src = src; dst = dst }
unfolding read_ipv4 packet_bytes
read_ipv4-packet_bytes n protocol src dst payload h =
    ground (arith, bit_and_nibble 69, load16-put16 n [] h)
