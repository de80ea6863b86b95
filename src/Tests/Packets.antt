-- ===== src/Tests/Packets.antt =====
-- Examples of the theorems on ipv4.c, icmpv4.c and udp.c.
use ip.Base.{
  ℕ, ◌≤◌, ◌≡◌, ◌≢◌, refl, sym, ap, ◌∙◌, arith, true, List, [], ◌∷◌, none, some, length, replicate,
}
use mathlib.Core.Path.{subst}
use ip.Utility.Checksum.{net_checksum}
use ip.Utility.Checksum.Sum.{IsBytes}
use ip.Os.{Call, Err, ArpRequest, Timeout, UdpPort, Ipv4Params}
use ip.Tcp.Send.Checksum.{IsIp}
use ip.Ipv4.Header.{packet_bytes, read_ipv4}
use ip.Ipv4.Input.{ipv4_input, deliver}
use ip.Ipv4.Input.Accept.{sent_header, length-packet_bytes, ipv4_input_accepts, ipv4_input_guarded}
use ip.Ipv4.Input.Deliver.{input_calls, tcp_segment_delivered, short_total_length_faults}
use ip.Sys.{CacheRow}
use ip.Arp.Cache.{get_cached}
use ip.Ipv4.Output.{internal_send_ipv4_packet}
use ip.Ipv4.Output.Payload.{Extends, payload_freed}
use ip.Ipv4.Output.Frames.{Holds, packet_transmitted}
use ip.Icmp.{reply_bytes, icmpv4_input}
use ip.Icmp.Echo.{echo_request, IsReply, reply_verifies, echo_answered}
use ip.Udp.{find_port, lookup_port, place_port}
use ip.Udp.Ports.{find_port_misses_wide}
use ip.Tests.Setup.{granting, own_ip, peer_ip, boot, own_mac}

own_ip-IsIp : IsIp own_ip
own_ip-IsIp = omega arith

peer_ip-IsIp : IsIp peer_ip
peer_ip-IsIp = omega arith

abbrev payload : List ℕ
payload = 1 ∷ 2 ∷ 3 ∷ []

payload-IsBytes : IsBytes payload
payload-IsBytes = omega arith

ipv4_input_accepts_example :
    let packet = packet_bytes 22 17 peer_ip own_ip payload in
    ipv4_input granting packet (length packet) boot
    ≡ deliver granting packet (sent_header 22 17 peer_ip own_ip) boot
ipv4_input_accepts_example =
    ipv4_input_accepts granting 22 17 peer_ip own_ip payload boot (omega arith) (omega arith)
      (omega arith) peer_ip-IsIp own_ip-IsIp refl

short_total_length_faults_example :
    let packet = packet_bytes 19 6 peer_ip own_ip payload in
    (ipv4_input granting packet (length packet) boot).1
    ≡ record boot { log = Call.fault ∷ Call.malloc 65535 (some 1000) ∷ [] }
short_total_length_faults_example =
    short_total_length_faults granting 1000 19 peer_ip own_ip payload boot (omega arith)
      (omega arith) peer_ip-IsIp own_ip-IsIp refl refl

abbrev guarded_packet : List ℕ
guarded_packet = packet_bytes 60 6 peer_ip own_ip (replicate 40 0)

length-guarded_packet : length guarded_packet ≡ 60
length-guarded_packet = length-packet_bytes 60 6 peer_ip own_ip (replicate 40 0)

guarded_packet_delivered :
    (ipv4_input granting guarded_packet 60 boot).1
    ≡ record boot { log = input_calls granting 1000 (replicate 40 0) peer_ip boot }
guarded_packet_delivered =
    subst
      (λ n.
        (ipv4_input granting guarded_packet n boot).1
        ≡ record boot { log = input_calls granting 1000 (replicate 40 0) peer_ip boot })
      length-guarded_packet
      (tcp_segment_delivered granting 1000 (replicate 40 0) [] peer_ip own_ip boot (omega arith)
        peer_ip-IsIp own_ip-IsIp refl refl)

guarded_packet_reacts : (ipv4_input granting guarded_packet 60 boot).1 ≢ boot
guarded_packet_reacts same =
    let calls : [] ≡ input_calls granting 1000 (replicate 40 0) peer_ip boot =
      ap (λ t. t.log) (sym same ∙ guarded_packet_delivered) in
    cc calls

abbrev wide_port : UdpPort
wide_port = record { port_number = 5000; callback = some 4 }

abbrev narrow_port : UdpPort
narrow_port = record { port_number = 53; callback = some 4 }

abbrev free_port : UdpPort
free_port = record { port_number = 0; callback = none }

no_port_found : find_port 53 (free_port ∷ []) ≡ none
unfolding find_port lookup_port
no_port_found = refl

narrow_port_placed : place_port narrow_port (free_port ∷ []) ≡ some (narrow_port ∷ [])
unfolding place_port
narrow_port_placed = refl

ipv4_input_guarded_example :
    let h = read_ipv4 guarded_packet in
    (20 ≤ 60)
    × (h.version ≡ 4)
    × (h.ihl ≡ 5)
    × (h.total_length ≤ 60)
    × (net_checksum guarded_packet 20 ≡ 0)
    × (h.dst ≡ own_ip)
ipv4_input_guarded_example =
    ipv4_input_guarded granting guarded_packet 60 boot (omega (arith, length-guarded_packet))
      guarded_packet_reacts

reply_verifies_example :
    let reply = reply_bytes 7 1 payload 3 in net_checksum reply (length reply) ≡ 0
reply_verifies_example =
    reply_verifies 7 1 payload (omega arith) (omega arith) payload-IsBytes (omega arith)

echo_answered_example :
    (reply : List ℕ) × IsReply 7 1 payload reply
    × ((icmpv4_input granting
          (packet_bytes 31 1 peer_ip own_ip (echo_request 0 0 7 1 payload))
          31
          boot).1
        ≡ record boot {
          log =
              Call.send_ipv4_queue
                (record {
                  src_ipv4_addr = own_ip;
                  dst_ipv4_addr = peer_ip;
                  protocol = 1;
                  payload = record { addr = 1000; bytes = reply };
                  data_len = 11;
                })
                Timeout.no_wait
                true
              ∷ Call.malloc 11 (some 1000)
              ∷ [];
        })
echo_answered_example =
    echo_answered granting 0 0 7 1 1000 peer_ip own_ip payload boot (omega arith) (omega arith)
      payload-IsBytes (omega arith) refl refl refl

find_port_misses_wide_example : find_port 5000 (wide_port ∷ []) ≢ some wide_port
find_port_misses_wide_example = find_port_misses_wide 5000 (wide_port ∷ []) wide_port (omega arith)

abbrev transmit_params : Ipv4Params
transmit_params = record {
  src_ipv4_addr = own_ip;
  dst_ipv4_addr = peer_ip;
  protocol = 17;
  payload = record { addr = 500; bytes = payload };
  data_len = 3;
}

-- The ARP task has learnt the peer's address.
abbrev learns : List CacheRow → List CacheRow
learns rows = record { ip = peer_ip; mac = own_mac } ∷ rows

peer_known : get_cached peer_ip (learns boot.ip_mac_cache) ≡ some own_mac
unfolding get_cached ip.Utility.Types.ip_eq
peer_known = refl

payload_freed_example :
    Extends
      (Call.free 500 ∷ Call.malloc 23 (some 1000) ∷ [])
      (internal_send_ipv4_packet granting learns 9 transmit_params boot).1.log
payload_freed_example =
    payload_freed granting learns 9 transmit_params boot (omega arith) (omega arith)

packet_transmitted_example :
    let copied = Call.free 500 ∷ Call.malloc 23 (some 1000) ∷ [] in
    let request : ArpRequest = record { ip = peer_ip; task = 9 } in
    let asked =
      Call.malloc 37 (some 1004)
      ∷ Call.notify_take
      ∷ Call.send_arp_request_queue request Timeout.max_delay true
      ∷ copied in
    (frame : List ℕ) × Holds transmit_params own_mac own_mac frame
    × ((internal_send_ipv4_packet granting learns 9 transmit_params boot).1 ≡ record boot {
      ip_mac_cache = learns boot.ip_mac_cache;
      log = Call.free 1000 ∷ Call.free 1004 ∷ Call.wifi_tx frame Err.esp_ok ∷ asked;
    })
packet_transmitted_example =
    packet_transmitted granting learns 9 1000 1004 transmit_params own_mac boot (omega arith)
      (omega arith) (omega arith) own_ip-IsIp peer_ip-IsIp refl peer_known refl
