-- ===== src/Ipv4/Header.antt =====
-- `struct ipv4_header_t` (protocols/ipv4.h), written field by field and read by a copy.
pub mod Verify
use ip.Base.{ℕ, ◌*◌, ◌/◌, bit_or, bit_and, ◌<<<◌, ◌>>>◌, List, [], ◌∷◌, get_or}
use ip.Utility.Types.{Ipv4Addr, put_ip, ip_at}
use ip.Utility.Endian.{put16, htons, ntohs, load16}
use ip.Utility.Checksum.{net_checksum}

-- `HEADER_LENGTH`, and `sizeof(struct ipv4_header_t)`.
abbrev pub header_size : ℕ
header_size = 20

-- The 10 bytes in front of the checksum.
abbrev pub put_front : ℕ → ℕ → List ℕ → List ℕ
put_front total_length protocol rest =
    bit_or (4 <<< 4) (header_size / 4)
    ∷ 0
    ∷ put16 (htons total_length) (0 ∷ 0 ∷ put16 (htons (2 <<< 13)) (128 ∷ protocol ∷ rest))

-- The checksum of the header, its own field still 0.
unfoldable pub header_checksum : ℕ → ℕ → Ipv4Addr → Ipv4Addr → ℕ
header_checksum total_length protocol src dst =
    net_checksum (put_front total_length protocol (0 ∷ 0 ∷ put_ip src (put_ip dst []))) header_size

-- The whole packet: the header with its checksum filled in, and the payload.
unfoldable pub packet_bytes : ℕ → ℕ → Ipv4Addr → Ipv4Addr → List ℕ → List ℕ
packet_bytes total_length protocol src dst payload = put_front total_length protocol (
    put16 (htons (header_checksum total_length protocol src dst)) (put_ip src (put_ip dst payload)))

-- The fields that `ipv4_input` uses, in host order.
pub record Ipv4Header : Type 0 where
  pub version : ℕ
  pub ihl : ℕ
  pub total_length : ℕ
  pub protocol : ℕ
  pub src : Ipv4Addr
  pub dst : Ipv4Addr

unfoldable pub read_ipv4 : List ℕ → Ipv4Header
read_ipv4 buffer = record {
  version = get_or buffer 0 0 >>> 4;
  ihl = bit_and (get_or buffer 0 0) 0x0f;
  total_length = ntohs (load16 buffer 2);
  protocol = get_or buffer 9 0;
  src = ip_at buffer 12;
  dst = ip_at buffer 16;
}
