-- ===== src/Ipv4/Input.antt =====
-- ipv4.c: `ipv4_input`, which the Wi-Fi receive callback runs on each IPv4 packet.
pub mod Accept
pub mod Deliver
use ip.Base.{
  ℕ, ◌+◌, ◌-◌, ◌*◌, not, ◌==◌, ltb, if◌then◌else◌, List, State, ◌>>=◌, ◌>>◌, get, skip, u16, drop,
  length,
}
use ip.Utility.Types.{Ipv4Addr, ip_eq}
use ip.Utility.Checksum.{net_checksum}
use ip.Os.{Env, Err}
use ip.Sys.{Sys, fault}
use ip.Icmp.{icmp_protocol_number, icmpv4_input}
use ip.Tcp.Segment.{tcp_protocol_number}
use ip.Tcp.Commands.{input_tcp}
use ip.Ipv4.Header.{Ipv4Header, header_size, read_ipv4}

-- The `switch` on the protocol.
unfoldable pub deliver : Env → List ℕ → Ipv4Header → State Sys (Unit {0})
deliver env buffer h =
    if h.protocol == icmp_protocol_number
    then icmpv4_input env buffer h.total_length
    else (if h.protocol == tcp_protocol_number
        then (do
          input_tcp env (drop (h.ihl * 4) buffer) (u16 (h.total_length + 65536 - h.ihl * 4)) h.src
          skip)
        else skip)

-- The tests of the header, in the order of the code. The checksum is computed over as many bytes as
-- the header says that it has, which may be more than there are.
unfoldable pub check_header : Env → List ℕ → ℕ → Ipv4Header → State Sys (Unit {0})
check_header env buffer buffer_len h =
    if not (h.version == 4)
    then skip
    else (if ltb buffer_len h.total_length
        then skip
        else (if ltb (length buffer) (h.ihl * 4)
            then fault
            else (if not (net_checksum buffer (h.ihl * 4) == 0) then skip else (do
              s ← get
              if not (ip_eq h.dst s.self_net.ip)
                  then skip
                  else (if not (h.ihl * 4 == header_size) then skip else deliver env buffer h)))))

-- `ipv4_input`.
unfoldable pub ipv4_input : Env → List ℕ → ℕ → State Sys (Unit {0})
ipv4_input env buffer buffer_len =
    if ltb buffer_len header_size
    then skip
    else (if ltb (length buffer) header_size
        then fault
        else check_header env buffer buffer_len (read_ipv4 buffer))
