-- ===== src/Ipv4/Input/Accept.antt =====
-- ipv4.c: which packets `ipv4_input` lets through, and what it does with them.
use ip.Base.{
  ℕ, ◌+◌, ◌*◌, ◌≤◌, ◌<◌, ◌≡◌, ◌≢◌, refl, ◌∙◌, arith, true, List, length, drop, le→ltb,
  bit_and_nibble, get_or,
}
use ip.Utility.Types.{Ipv4Addr, ip_eq, ip_eq_iff}
use ip.Utility.Checksum.{net_checksum}
use ip.Os.{Env}
use ip.Sys.{Sys}
use ip.Tcp.Send.Checksum.{IsIp}
use ip.Ipv4.Header.{Ipv4Header, read_ipv4, packet_bytes}
use ip.Ipv4.Header.Verify.{header_verifies, header_only, read_ipv4-packet_bytes}
use ip.Ipv4.Input.{ipv4_input, check_header, deliver}

-- The header that a packet of the stack carries.
abbrev pub sent_header : ℕ → ℕ → Ipv4Addr → Ipv4Addr → Ipv4Header
sent_header n protocol src dst = record {
  version = 4;
  ihl = 5;
  total_length = n;
  protocol = protocol;
  src = src;
  dst = dst;
}

pub length-packet_bytes :
    (n protocol : ℕ) (src dst : Ipv4Addr) (rest : List ℕ)
    → length (packet_bytes n protocol src dst rest) ≡ 20 + length rest
unfolding packet_bytes
length-packet_bytes n protocol src dst rest = omega arith

pub drop-packet_bytes :
    (n protocol : ℕ) (src dst : Ipv4Addr) (rest : List ℕ)
    → drop 20 (packet_bytes n protocol src dst rest) ≡ rest
unfolding packet_bytes
drop-packet_bytes n protocol src dst rest = refl

-- The tests, for a header and a buffer about which the facts are known.
check_passes :
    (env : Env) (buffer : List ℕ) (buffer_len : ℕ) (h : Ipv4Header) (s : Sys)
    → h.version ≡ 4
    → h.ihl ≡ 5
    → h.total_length ≤ buffer_len
    → 20 ≤ length buffer
    → net_checksum buffer 20 ≡ 0
    → h.dst ≡ s.self_net.ip
    → check_header env buffer buffer_len h s ≡ deliver env buffer h s
unfolding check_header
check_passes env buffer buffer_len h s version ihl fits room sum dst =
    let sum' : net_checksum buffer (h.ihl * 4) ≡ 0 = rw ihl sum in
    let own : ip_eq h.dst s.self_net.ip ≡ true = (ip_eq_iff h.dst s.self_net.ip).1 dst in
    ground arith

-- A packet that the stack built, in a buffer of at most 65535 bytes that covers its total length,
-- is let through by the station whose address it carries, with the fields that were written,
-- whatever padding follows in the buffer.
pub ipv4_input_accepts :
    (env : Env) (n protocol : ℕ) (src dst : Ipv4Addr) (rest : List ℕ) (s : Sys)
    → n ≤ 20 + length rest
    → length rest < 65516
    → protocol < 256
    → IsIp src
    → IsIp dst
    → dst ≡ s.self_net.ip
    → let packet = packet_bytes n protocol src dst rest in
      ipv4_input env packet (length packet) s
      ≡ deliver env packet (sent_header n protocol src dst) s
unfolding ipv4_input
ipv4_input_accepts env n protocol src dst rest s fits small hp hs hd own =
    let packet = packet_bytes n protocol src dst rest in
    let size = length-packet_bytes n protocol src dst rest in
    let sum : net_checksum packet 20 ≡ 0 =
      header_only n protocol src dst rest ∙ header_verifies n protocol src dst hp hs hd in
    let read = read_ipv4-packet_bytes n protocol src dst rest (omega arith) in
    rw (le→ltb (length packet) 20 (omega arith), read)
      (check_passes env packet (length packet) (sent_header n protocol src dst) s refl refl
        (omega arith) (omega arith) sum own)

-- Of the packets in buffers of at least 60 bytes, whatever ipv4_input reacts to has passed every
-- test: version 4, no options, a length that the buffer covers, a header checksum of 0, and the
-- station's own address.
pub ipv4_input_guarded :
    (env : Env) (buffer : List ℕ) (buffer_len : ℕ) (s : Sys)
    → 60 ≤ length buffer
    → (ipv4_input env buffer buffer_len s).1 ≢ s
    → let h = read_ipv4 buffer in
      (20 ≤ buffer_len)
      × (h.version ≡ 4)
      × (h.ihl ≡ 5)
      × (h.total_length ≤ buffer_len)
      × (net_checksum buffer 20 ≡ 0)
      × (h.dst ≡ s.self_net.ip)
unfolding ipv4_input check_header
ipv4_input_guarded env buffer buffer_len s room changed =
    ground (arith, ip_eq_iff (read_ipv4 buffer).dst s.self_net.ip, nibble)
  where
    nibble : (read_ipv4 buffer).ihl < 16
    nibble = unfold read_ipv4 in omega (arith, bit_and_nibble (get_or buffer 0 0))
