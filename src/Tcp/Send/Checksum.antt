-- ===== src/Tcp/Send/Checksum.antt =====
-- The checksum that tcp.c fills into a segment, as a receiver tests it.
use ip.Base.{ℕ, ◌+◌, ◌<◌, ◌≡◌, arith, u16, List, [], ◌∷◌, ◌++◌, length}
use ip.Utility.Types.{Ipv4Addr}
use ip.Utility.Checksum.{net_checksum}
use ip.Utility.Checksum.Sum.{IsBytes}
use ip.Utility.Checksum.Verify.{IsEven, even_nil, even_cons, net_checksum_filled}
use ip.Os.{TcpParams}
use ip.Tcp.Segment.{Header, put_front, put_pseudo}
use ip.Tcp.Segment.Layout.{Fits}
use ip.Tcp.Send.{segment_checksum, segment_bytes}

-- The four bytes of an address are bytes.
abbrev pub IsIp : Ipv4Addr → Type 0
IsIp a = (a.i0 < 256) × (a.i1 < 256) × (a.i2 < 256) × (a.i3 < 256)

-- What stands in front of the checksum field, pseudo header and all.
abbrev front : Ipv4Addr → Ipv4Addr → ℕ → Header → List ℕ
front src dst n h = put_pseudo src dst n (put_front h [])

front-IsEven : (src dst : Ipv4Addr) (n : ℕ) (h : Header) → IsEven (front src dst n h)
front-IsEven src dst n h = search (even_nil, even_cons) depth 20

front-IsBytes :
    (src dst : Ipv4Addr) (n : ℕ) (h : Header)
    → IsIp src
    → IsIp dst
    → Fits h
    → IsBytes (front src dst n h)
front-IsBytes src dst n h hs hd f = omega arith

-- A receiver that sums the pseudo header and the segment that tcp_send_internal built, for bytes
-- in range and a length within 16 bits, gets 0.
pub segment_checksum_verifies :
    (self_ip : Ipv4Addr) (p : TcpParams) (h : Header) (payload : List ℕ)
    → IsIp self_ip
    → IsIp p.dst_ipv4_addr
    → Fits h
    → IsBytes payload
    → length payload + 32 < 65536
    → let n = 20 + length payload in
      let seen = put_pseudo self_ip p.dst_ipv4_addr n (segment_bytes self_ip p h n payload) in
      net_checksum seen (length seen) ≡ 0
unfolding segment_bytes segment_checksum
segment_checksum_verifies self_ip p h payload hs hd f hp lt = rw whole (
    net_checksum_filled before (0 ∷ 0 ∷ payload) (front-IsEven self_ip p.dst_ipv4_addr n h)
      (front-IsBytes self_ip p.dst_ipv4_addr n h hs hd f) (omega arith, (omega arith, hp))
      (omega arith))
  where
    n : ℕ
    n = 20 + length payload

    before : List ℕ
    before = front self_ip p.dst_ipv4_addr n h

    whole : u16 (n + 12) ≡ length (before ++ (0 ∷ 0 ∷ 0 ∷ 0 ∷ payload))
    whole = omega arith
