-- ===== src/Icmp.antt =====
-- components/net_stack/protocols/icmpv4.c: answers to echo requests.
pub mod Echo
use ip.Base.{
  ℕ, ◌+◌, ◌-◌, ◌&&◌, ◌==◌, ltb, if◌then◌else◌, List, [], ◌∷◌, Option, none, some, State, ◌>>=◌,
  ◌>>◌, return, get, skip, u16, take, drop, length, get_or,
}
use ip.Utility.Types.{Ipv4Addr, NetContext, ip_at}
use ip.Utility.Endian.{put16, htons, ntohs, load16}
use ip.Utility.Checksum.{net_checksum}
use ip.Os.{Buf, Env, Err}
use ip.Sys.{Sys, malloc, fault}
use ip.Ipv4.Transmit.{send_ipv4_packet}

abbrev pub icmp_protocol_number : ℕ
icmp_protocol_number = 1

-- `sizeof(struct icmpv4_header_t)`.
abbrev pub icmp_header_size : ℕ
icmp_header_size = 8

-- `icmpv4_set_self_net_context`, on the symbol that the four protocols share.
unfoldable pub icmpv4_set_self_net_context : NetContext → State Sys (Unit {0})
icmpv4_set_self_net_context net s = (tt, record s { self_net = net })

-- The checksum of a reply, its own field still 0.
unfoldable pub reply_checksum : ℕ → ℕ → List ℕ → ℕ → ℕ
reply_checksum id seq_num payload data_len =
    net_checksum (0 ∷ 0 ∷ 0 ∷ 0 ∷ put16 (htons id) (put16 (htons seq_num) payload))
      (u16 (icmp_header_size + data_len))

unfoldable pub reply_bytes : ℕ → ℕ → List ℕ → ℕ → List ℕ
reply_bytes id seq_num payload data_len =
    0
    ∷ 0
    ∷ put16 (htons (reply_checksum id seq_num payload data_len))
        (put16 (htons id) (put16 (htons seq_num) payload))

-- `send_icmpv4_ping_reply`; `data_bytes` is what stands at `data`.
unfoldable pub send_icmpv4_ping_reply : Env → Ipv4Addr → ℕ → ℕ → List ℕ → ℕ → State Sys Err
send_icmpv4_ping_reply env dst id seq_num data_bytes data_len = do
  icmpv4_packet ← malloc env (icmp_header_size + data_len)
  s ← get
  elim icmpv4_packet [
    | none ↦ return Err.esp_err_no_mem
    | some addr ↦
        if ltb (length data_bytes) data_len
        then (do fault; return Err.esp_fail)
        else send_ipv4_packet env (record {
          src_ipv4_addr = s.self_net.ip;
          dst_ipv4_addr = dst;
          protocol = icmp_protocol_number;
          payload = record {
            addr = addr;
            bytes = reply_bytes id seq_num (take data_len data_bytes) data_len;
          };
          data_len = u16 (icmp_header_size + data_len);
        })
  ]

-- `icmpv4_input`, on a whole IPv4 packet of which `buffer_len` bytes count.
unfoldable pub icmpv4_input : Env → List ℕ → ℕ → State Sys (Unit {0})
icmpv4_input env buffer buffer_len =
    if ltb buffer_len 28
    then skip
    else (if ltb (length buffer) 28
        then fault
        else (if get_or buffer 20 0 == 8 && get_or buffer 21 0 == 0
            then (do
              send_icmpv4_ping_reply env (ip_at buffer 12) (ntohs (load16 buffer 24))
                  (ntohs (load16 buffer 26)) (drop 28 buffer)
                  (u16 (ntohs (load16 buffer 2) + 65536 - 20 - 8))
              skip)
            else skip))
