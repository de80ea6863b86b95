-- ===== src/Ipv4/Output/Frames.antt =====
-- ipv4.c: the frame in which the IPv4 task sends a packet.
use ip.Base.{
  ℕ, ◌+◌, ◌≡◌, ◌<◌, ◌≤◌, refl, ap, ◌∙◌, arith, List, [], ◌∷◌, some, length, take, drop, u16,
  take_within, length-take,
}
use ip.Utility.Types.{MacAddr, mac_at}
use ip.Utility.Endian.{htons, ntohs, load16, load16-put16}
use ip.Utility.Checksum.{net_checksum}
use ip.Os.{Env, Call, ArpRequest, Ipv4Params, Timeout, Queue}
use ip.Sys.{Sys, CacheRow}
use ip.Eth.{eth_tx, frame_bytes}
use ip.Arp.Cache.{get_cached}
use ip.Arp.Task.{arp_get_mac_addr, arp_get_cached_mac_addr}
use ip.Tcp.Send.Checksum.{IsIp}
use ip.Ipv4.Header.{read_ipv4}
use ip.Ipv4.Header.Verify.{header_verifies, header_only, read_ipv4-packet_bytes}
use ip.Ipv4.Input.Accept.{length-packet_bytes, drop-packet_bytes}
use ip.Ipv4.Output.{packet_of, send_resolved, internal_send_ipv4_packet}
use ip.Ipv4.Output.Payload.{waited, payload_copied, arp_get_mac_addr-waited, internal_send-resolved}

-- What a station reads from a frame with the packet: the addresses, the ethertype, the fields of the
-- header, a checksum that verifies, and the payload.
pub record Holds (p : Ipv4Params) (dst_mac src_mac : MacAddr) (frame : List ℕ) : Type 0 where
  pub to_mac : mac_at frame 0 ≡ dst_mac
  pub from_mac : mac_at frame 6 ≡ src_mac
  pub ethertype : ntohs (load16 frame 12) ≡ 0x0800
  pub header : read_ipv4 (drop 14 frame) ≡ record {
    version = 4;
    ihl = 5;
    total_length = 20 + p.data_len;
    protocol = p.protocol;
    src = p.src_ipv4_addr;
    dst = p.dst_ipv4_addr;
  }
  pub verifies : net_checksum (drop 14 frame) 20 ≡ 0
  pub content : drop 34 frame ≡ take p.data_len p.payload.bytes

abbrev frame_of : Ipv4Params → MacAddr → MacAddr → List ℕ
frame_of p dst_mac src_mac = frame_bytes dst_mac src_mac (htons 0x0800) (packet_of p)

frame_of-Holds :
    (p : Ipv4Params) (dst_mac src_mac : MacAddr)
    → p.data_len < 65502
    → p.protocol < 256
    → IsIp p.src_ipv4_addr
    → IsIp p.dst_ipv4_addr
    → Holds p dst_mac src_mac (frame_of p dst_mac src_mac)
unfolding packet_of
frame_of-Holds p dst_mac src_mac short hp hs hd =
    let n = 20 + p.data_len in
    let rest = take p.data_len p.payload.bytes in
    let cut : u16 n ≡ n = omega arith in
    rw cut (record {
      to_mac = refl;
      from_mac = refl;
      ethertype = load16-put16 0x0800 [] (omega arith);
      header =
          read_ipv4-packet_bytes n p.protocol p.src_ipv4_addr p.dst_ipv4_addr rest (omega arith);
      verifies =
          header_only n p.protocol p.src_ipv4_addr p.dst_ipv4_addr rest
          ∙ header_verifies n p.protocol p.src_ipv4_addr p.dst_ipv4_addr hp hs hd;
      content = drop-packet_bytes n p.protocol p.src_ipv4_addr p.dst_ipv4_addr rest;
    })

length-packet_of :
    (p : Ipv4Params) → p.data_len ≤ length p.payload.bytes → length (packet_of p) ≡ 20 + p.data_len
unfolding packet_of
length-packet_of p covers = omega (
  arith,
  length-take p.data_len p.payload.bytes,
  length-packet_bytes (u16 (20 + p.data_len)) p.protocol p.src_ipv4_addr p.dst_ipv4_addr
      (take p.data_len p.payload.bytes),
)

known_after_wait :
    (env : Env) (meanwhile : List CacheRow → List CacheRow) (task : ℕ) (p : Ipv4Params)
    (mac : MacAddr) (s : Sys)
    → get_cached p.dst_ipv4_addr (meanwhile s.ip_mac_cache) ≡ some mac
    → get_cached p.dst_ipv4_addr (waited env meanwhile task p s).ip_mac_cache ≡ some mac
unfolding arp_get_mac_addr arp_get_cached_mac_addr
known_after_wait env meanwhile task p mac s known = known

self_net-waited :
    (env : Env) (meanwhile : List CacheRow → List CacheRow) (task : ℕ) (p : Ipv4Params) (s : Sys)
    → (waited env meanwhile task p s).self_net ≡ s.self_net
unfolding arp_get_mac_addr arp_get_cached_mac_addr
self_net-waited env meanwhile task p s = refl

resolved_transmitted :
    (env : Env) (meanwhile : List CacheRow → List CacheRow) (task a : ℕ) (p : Ipv4Params)
    (mac : MacAddr) (s : Sys)
    → p.data_len < 65516
    → get_cached p.dst_ipv4_addr (waited env meanwhile task p s).ip_mac_cache ≡ some mac
    → let t = waited env meanwhile task p s in
      let sent = eth_tx env mac s.self_net.mac (htons 0x0800) (packet_of p) (20 + p.data_len) t in
      send_resolved env meanwhile task p a s
      ≡ (sent.0, record sent.1 { log = Call.free a ∷ sent.1.log })
unfolding send_resolved
resolved_transmitted env meanwhile task a p mac s short known = ground (
  arith,
  known,
  arp_get_mac_addr-waited env meanwhile task p s,
  self_net-waited env meanwhile task p s,
)

eth_tx-sends :
    (env : Env) (dst src : MacAddr) (ethertype n size b : ℕ) (payload : List ℕ) (s : Sys)
    → length payload ≡ n
    → 14 + n ≡ size
    → size < 65536
    → env.malloc_at s.log size ≡ some b
    → let asked = Call.malloc size (some b) ∷ s.log in
      let frame = frame_bytes dst src ethertype payload in
      (eth_tx env dst src ethertype payload n s).1
      ≡ record s { log = Call.free b ∷ Call.wifi_tx frame (env.wifi_result asked frame) ∷ asked }
unfolding eth_tx
eth_tx-sends env dst src ethertype n size b payload s covers sum short got =
    let whole : take n payload ≡ payload = take_within n payload (omega (arith, covers)) in
    let fits : u16 (14 + n) ≡ size = omega (arith, sum) in
    rw fits (ground (arith, got, covers, whole))

-- The state in which the look-up goes on: the table is as the ARP task has left it.
abbrev looked_up : Env → (List CacheRow → List CacheRow) → ℕ → ℕ → Ipv4Params → Sys → Sys
looked_up env meanwhile task a p s =
    let copied = Call.free p.payload.addr ∷ Call.malloc (20 + p.data_len) (some a) ∷ s.log in
    record s {
      ip_mac_cache = meanwhile s.ip_mac_cache;
      log =
          Call.notify_take
          ∷ Call.send_arp_request_queue (record { ip = p.dst_ipv4_addr; task = task })
              Timeout.max_delay (env.queue_send Queue.arp_request_queue copied)
          ∷ copied;
    }

waited-looked_up :
    (env : Env) (meanwhile : List CacheRow → List CacheRow) (task a : ℕ) (p : Ipv4Params) (s : Sys)
    → env.malloc_at s.log (20 + p.data_len) ≡ some a
    → waited env meanwhile task p (payload_copied env p s) ≡ looked_up env meanwhile task a p s
unfolding arp_get_mac_addr arp_get_cached_mac_addr
waited-looked_up env meanwhile task a p s got = rw got refl

-- When there is memory for packet and frame, a packet with addresses and protocol in range and a
-- payload of less than 65502 bytes, whose destination the table knows once the ARP task has let
-- this one go, goes out in one frame, from which a station reads the MAC address from the table,
-- the station's own, the source, destination, protocol and length of the packet, a header checksum
-- that verifies, and the payload. All blocks are freed, and but for the table of addresses nothing
-- else changes.
pub packet_transmitted :
    (env : Env) (meanwhile : List CacheRow → List CacheRow) (task a b : ℕ) (p : Ipv4Params)
    (mac : MacAddr) (s : Sys)
    → p.data_len ≤ length p.payload.bytes
    → p.data_len < 65502
    → p.protocol < 256
    → IsIp p.src_ipv4_addr
    → IsIp p.dst_ipv4_addr
    → env.malloc_at s.log (20 + p.data_len) ≡ some a
    → get_cached p.dst_ipv4_addr (meanwhile s.ip_mac_cache) ≡ some mac
    → let copied = Call.free p.payload.addr ∷ Call.malloc (20 + p.data_len) (some a) ∷ s.log in
      let request : ArpRequest = record { ip = p.dst_ipv4_addr; task = task } in
      let before =
        Call.notify_take
        ∷ Call.send_arp_request_queue request Timeout.max_delay
            (env.queue_send Queue.arp_request_queue copied)
        ∷ copied in
      let asked = Call.malloc (34 + p.data_len) (some b) ∷ before in
      env.malloc_at before (34 + p.data_len) ≡ some b
      → (frame : List ℕ) × Holds p mac s.self_net.mac frame
        × ((internal_send_ipv4_packet env meanwhile task p s).1 ≡ record s {
          ip_mac_cache = meanwhile s.ip_mac_cache;
          log =
              Call.free a ∷ Call.free b ∷ Call.wifi_tx frame (env.wifi_result asked frame) ∷ asked;
        })
packet_transmitted env meanwhile task a b p mac s covers short hp hs hd got known room =
    let own = s.self_net.mac in
    let n = 20 + p.data_len in
    let copied = payload_copied env p s in
    let ready = looked_up env meanwhile task a p s in
    (
      frame_of p mac own,
      frame_of-Holds p mac own short hp hs hd,
      ap (λ r. r.1)
            (internal_send-resolved env meanwhile task a p s got covers (omega arith)
              ∙ resolved_transmitted env meanwhile task a p mac copied (omega arith)
                  (known_after_wait env meanwhile task p mac copied known))
          ∙ ap
              (λ u.
                let v = (eth_tx env mac own (htons 0x0800) (packet_of p) n u).1 in
                record v { log = Call.free a ∷ v.log })
              (waited-looked_up env meanwhile task a p s got)
          ∙ ap (λ (v : Sys). record v { log = Call.free a ∷ v.log })
              (eth_tx-sends env mac own (htons 0x0800) n (34 + p.data_len) b (packet_of p) ready
                (length-packet_of p covers) (omega arith) (omega arith) room),
    )
