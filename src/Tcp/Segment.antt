-- ===== src/Tcp/Segment.antt =====
-- The layout of `struct tcp_header_t` and `struct ipv4_psuedo_header_t` (protocols/tcp.h), written
-- and read through pointer casts on a little-endian machine, with the bit-fields low bits first.
pub mod Layout
use ip.Base.{ℕ, ◌*◌, ◌/◌, List, ◌∷◌, get_or}
use ip.Utility.Types.{Ipv4Addr, put_ip}
use ip.Utility.Endian.{put16, put32, htons, htonl, ntohs, ntohl, load16, load32}

abbrev pub tcp_protocol_number : ℕ
tcp_protocol_number = 6

-- `sizeof(struct tcp_header_t)`.
abbrev pub tcp_header_size : ℕ
tcp_header_size = 20

-- `sizeof(struct ipv4_psuedo_header_t)`.
abbrev pub pseudo_header_size : ℕ
pseudo_header_size = 12

-- The header's fields in host order, as the code writes them through `htons` and `htonl`.
pub record Header : Type 0 where
  pub src_port : ℕ
  pub dst_port : ℕ
  pub seq_num : ℕ
  pub ack_num : ℕ
  pub d_offset : ℕ
  pub control : ℕ
  pub window : ℕ

-- The 16 bytes in front of the checksum field.
abbrev pub put_front : Header → List ℕ → List ℕ
put_front h rest = put16 (htons h.src_port) (
    put16 (htons h.dst_port) (
      put32 (htonl h.seq_num)
        (put32 (htonl h.ack_num) ((h.d_offset * 16) ∷ h.control ∷ put16 (htons h.window) rest))))

-- The pseudo header over which the checksum runs too.
abbrev pub put_pseudo : Ipv4Addr → Ipv4Addr → ℕ → List ℕ → List ℕ
put_pseudo src dst tcp_len rest =
    put_ip src (put_ip dst (0 ∷ tcp_protocol_number ∷ put16 (htons tcp_len) rest))

-- The fields that `input_tcp_internal` reads through its pointer cast.
unfoldable pub read_header : List ℕ → Header
read_header buffer = record {
  src_port = ntohs (load16 buffer 0);
  dst_port = ntohs (load16 buffer 2);
  seq_num = ntohl (load32 buffer 4);
  ack_num = ntohl (load32 buffer 8);
  d_offset = get_or buffer 12 0 / 16;
  control = get_or buffer 13 0;
  window = ntohs (load16 buffer 14);
}
