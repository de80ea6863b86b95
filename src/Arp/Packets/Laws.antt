-- ===== src/Arp/Packets/Laws.antt =====
-- arp.c: what one station sends, another reads.
use ip.Base.{ℕ, ◌<◌, ◌≡◌, arith, [], ◌∷◌}
use ip.Utility.Types.{Ipv4Addr, MacAddr, ip_eq_iff}
use ip.Utility.Endian.{load16-put16}
use ip.Os.{Env, Call, Timeout, Queue, ArpEntry}
use ip.Sys.{Sys}
use ip.Arp.Packets.{arp_packet, read_arp, handle_arp, arp_input, send_arp_reply}

-- The fields of a packet that send_arp_request or send_arp_reply wrote are read back, for an
-- operation within 16 bits.
pub read_arp-arp_packet :
    (operation : ℕ) (src_mac dst_mac : MacAddr) (src_ip dst_ip : Ipv4Addr)
    → operation < 65536
    → read_arp (arp_packet operation src_mac src_ip dst_mac dst_ip) ≡ record {
      hardware_type = 1;
      protocol_type = 0x0800;
      operation = operation;
      src_mac = src_mac;
      src_ip = src_ip;
      dst_ip = dst_ip;
    }
unfolding read_arp
read_arp-arp_packet operation src_mac dst_mac src_ip dst_ip h = ground (
  arith,
  load16-put16 1 [] (omega arith),
  load16-put16 0x0800 [] (omega arith),
  load16-put16 operation [] h,
)

-- The state after a message was put on the queue of the ARP task.
abbrev pub after_reply : Env → ArpEntry → Sys → Sys
after_reply env e s = record s {
  log =
      Call.send_arp_input_queue e Timeout.no_wait (env.queue_send Queue.arp_input_queue s.log)
      ∷ s.log;
}

-- A request for a station's own address is answered to its sender, and nothing else is done.
pub request_answered :
    (env : Env) (mac left_over : MacAddr) (ip own : Ipv4Addr) (s : Sys)
    → own ≡ s.self_ip_addr
    → (arp_input env (arp_packet 1 mac ip left_over own) s).1 ≡ (send_arp_reply env mac ip s).1
unfolding arp_input handle_arp
request_answered env mac left_over ip own s mine =
    rw (read_arp-arp_packet 1 mac left_over ip own (omega arith))
      (ground (arith, (ip_eq_iff own s.self_ip_addr).1 mine))

-- A reply to a station is handed to its ARP task, as the address pair that it carries.
pub reply_queued :
    (env : Env) (mac own_mac : MacAddr) (ip own : Ipv4Addr) (s : Sys)
    → own ≡ s.self_ip_addr
    → (arp_input env (arp_packet 2 mac ip own_mac own) s).1
      ≡ after_reply env (record { ip = ip; mac = mac }) s
unfolding arp_input handle_arp
reply_queued env mac own_mac ip own s mine =
    rw (read_arp-arp_packet 2 mac own_mac ip own (omega arith))
      (ground (arith, (ip_eq_iff own s.self_ip_addr).1 mine))
