-- ===== src/Arp/Packets.antt =====
-- arp.c: requests and replies on the wire, and what arrives.
pub mod Laws
use ip.Base.{
  ℕ, ◌+◌, ◌==◌, not, ltb, if◌then◌else◌, List, [], ◌∷◌, State, ◌>>=◌, ◌>>◌, return, get, skip,
  get_or, length,
}
use ip.Utility.Types.{Ipv4Addr, MacAddr, put_ip, put_mac, ip_at, mac_at, ip_eq}
use ip.Utility.Endian.{put16, htons, ntohs, load16}
use ip.Os.{Env, Call, Timeout, Queue, Err}
use ip.Sys.{Sys, fault, queue_send}
use ip.Eth.{eth_tx}

abbrev pub arp_ethertype : ℕ
arp_ethertype = 0x0806

abbrev pub ipv4_ethertype : ℕ
ipv4_ethertype = 0x0800

abbrev pub broadcast_mac : MacAddr
broadcast_mac = record { m0 = 255; m1 = 255; m2 = 255; m3 = 255; m4 = 255; m5 = 255 }

-- The 28 bytes of an ARP packet for IPv4 over Ethernet.
abbrev pub arp_packet : ℕ → MacAddr → Ipv4Addr → MacAddr → Ipv4Addr → List ℕ
arp_packet operation src_mac src_ip dst_mac dst_ip = put16 (htons 1) (
    put16 (htons ipv4_ethertype) (
      6
      ∷ 4
      ∷ put16 (htons operation)
          (put_mac src_mac (put_ip src_ip (put_mac dst_mac (put_ip dst_ip []))))))

-- `send_arp_request`. The target hardware address is skipped, so it holds what the stack held.
unfoldable pub send_arp_request : Env → Ipv4Addr → State Sys Err
send_arp_request env ip = do
  s ← get
  let left_over = mac_at (env.uninit s.log 28) 18
  eth_tx env broadcast_mac s.self_mac_addr (htons arp_ethertype)
      (arp_packet 1 s.self_mac_addr s.self_ip_addr left_over ip) 28

-- `send_arp_reply`.
unfoldable pub send_arp_reply : Env → MacAddr → Ipv4Addr → State Sys Err
send_arp_reply env mac_addr ip_addr = do
  s ← get
  eth_tx env mac_addr s.self_mac_addr (htons arp_ethertype)
      (arp_packet 2 s.self_mac_addr s.self_ip_addr mac_addr ip_addr) 28

-- `struct arp_data_t`, in host order.
pub record ArpData : Type 0 where
  pub hardware_type : ℕ
  pub protocol_type : ℕ
  pub operation : ℕ
  pub src_mac : MacAddr
  pub src_ip : Ipv4Addr
  pub dst_ip : Ipv4Addr

unfoldable pub read_arp : List ℕ → ArpData
read_arp buffer = record {
  hardware_type = ntohs (load16 buffer 0);
  protocol_type = ntohs (load16 buffer 2);
  operation = ntohs (load16 buffer 6);
  src_mac = mac_at buffer 8;
  src_ip = ip_at buffer 14;
  dst_ip = ip_at buffer 24;
}

-- `arp_input`, on a packet that holds the whole structure.
unfoldable pub handle_arp : Env → ArpData → State Sys (Unit {0})
handle_arp env d = do
  s ← get
  if not (d.hardware_type == 1)
      then skip
      else (if not (d.protocol_type == ipv4_ethertype)
          then skip
          else (if not (ip_eq d.dst_ip s.self_ip_addr)
              then skip
              else (if d.operation == 2
                  then (do
                    queue_send env Queue.arp_input_queue (λ b.
                        Call.send_arp_input_queue (record { ip = d.src_ip; mac = d.src_mac })
                          Timeout.no_wait b)
                    skip)
                  else (if d.operation == 1
                      then (do send_arp_reply env d.src_mac d.src_ip; skip)
                      else skip))))

-- `arp_input`. It does not look at the length, so a short packet is read past its end.
unfoldable pub arp_input : Env → List ℕ → State Sys (Unit {0})
arp_input env buffer = if ltb (length buffer) 28 then fault else handle_arp env (read_arp buffer)
