-- ===== src/Udp/Datagram.antt =====
-- udp.c: a datagram from `udp_send_internal` to the callback of the port that it is for.
use ip.Base.{
  ℕ, ◌+◌, ◌-◌, ap, ◌∙◌, ltb, drop, false, [], ◌<◌, ◌≤◌, ◌≡◌, arith, List, ◌∷◌, ◌++◌, some, length,
  take,
}
use ip.Utility.Types.{Ipv4Addr}
use ip.Utility.Endian.{load16-put16, ntohs, load16}
use ip.Os.{Buf, Env, Call, UdpPort, UdpParams}
use ip.Sys.{Sys}
use ip.Ipv4.Transmit.{send_ipv4_packet}
use ip.Udp.{find_port, udp_input, datagram_bytes, udp_send_internal}

-- When there is memory for it, the payload is copied into a datagram, its block is freed, and the
-- datagram is handed to IPv4.
pub udp_send_internal_lem :
    (env : Env) (p : UdpParams) (b : Buf) (a : ℕ) (s : Sys)
    → p.payload ≡ some b
    → 0 < p.data_len
    → p.data_len < 65528
    → p.data_len ≤ length b.bytes
    → env.malloc_at s.log (8 + p.data_len) ≡ some a
    → let n = 8 + p.data_len in
      udp_send_internal env p s
      ≡ send_ipv4_packet env
          (record {
            src_ipv4_addr = s.self_net.ip;
            dst_ipv4_addr = p.dst_ipv4_addr;
            protocol = 17;
            payload = record { addr = a; bytes = datagram_bytes p n (take p.data_len b.bytes) };
            data_len = n;
          })
          (record s { log = Call.free b.addr ∷ Call.malloc n (some a) ∷ s.log })
unfolding udp_send_internal
udp_send_internal_lem env p b a s given some_data short covers got = ground (arith, given, got)

udp_input-found :
    (buffer : List ℕ) (src : Ipv4Addr) (q : UdpPort) (n f : ℕ) (s : Sys)
    → ltb (length buffer) 8 ≡ false
    → ntohs (load16 buffer 4) ≡ n
    → 8 ≤ n
    → n < 65536
    → find_port (ntohs (load16 buffer 2)) s.udp_ports ≡ some q
    → q.callback ≡ some f
    → (udp_input buffer src s).1
      ≡ record s { log = Call.udp_received f (drop 8 buffer) (n - 8) src ∷ s.log }
unfolding udp_input
udp_input-found buffer src q n f s long length_field low high found calls =
    ground (arith, long, length_field, found, calls)

-- Whatever follows it in the buffer, a datagram of at most 65535 bytes as udp_send_internal builds
-- it reaches the callback of the port that is found for its number, with its payload and its
-- length.
pub udp_input-datagram :
    (p : UdpParams) (payload rest : List ℕ) (src : Ipv4Addr) (q : UdpPort) (f : ℕ) (s : Sys)
    → p.dst_port < 65536
    → length payload < 65528
    → find_port p.dst_port s.udp_ports ≡ some q
    → q.callback ≡ some f
    → let datagram = datagram_bytes p (8 + length payload) payload in
      (udp_input (datagram ++ rest) src s).1
      ≡ record s { log = Call.udp_received f (payload ++ rest) (length payload) src ∷ s.log }
udp_input-datagram p payload rest src q f s port short found calls =
    udp_input-found (datagram_bytes p (8 + length payload) payload ++ rest) src q
      (8 + length payload) f s (ground arith)
      (load16-put16 (8 + length payload) (0 ∷ 0 ∷ payload) (omega arith)) (omega arith)
      (omega arith) (rw (load16-put16 p.dst_port [] port) found) calls
    ∙ ap (λ (n : ℕ). record s { log = Call.udp_received f (payload ++ rest) n src ∷ s.log })
        (omega arith)
