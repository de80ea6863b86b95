-- ===== src/Tests/Runs.antt =====
-- Examples of the theorems on the tasks, on whole frames and on udp.c.
use ip.Base.{ℕ, ◌+◌, ◌≡◌, ◌≢◌, refl, arith, List, [], ◌∷◌, ◌++◌, none, some, length, u32}
use ip.Utility.Types.{mac_zero, MacAddr}
use ip.Utility.Endian.{htons}
use ip.Os.{Env, CmdType, Call, Err, Buf, Timeout, UdpPort, UdpParams}
use ip.Sys.{Sys, close_wait}
use ip.Eth.{frame_bytes, eth_tx}
use ip.Arp.Packets.{arp_packet, arp_ethertype, ipv4_ethertype, send_arp_request}
use ip.Arp.Pending.Balance.{wakes}
use ip.Arp.Pending.{expire, find_pending, alloc_pending, notify_all}
use ip.Arp.Task.{
  ArpEvent, got_request, no_event, arp_task_round, clean_pending, handle_request, join_pending,
}
use ip.Arp.Task.Rounds.{arp_task_rounds, requests_answered}
use ip.Arp.Task.Dates.{AllDue, AllLongAgo}
use ip.Ipv4.Header.{packet_bytes}
use ip.Ipv4.Input.Deliver.{input_calls}
use ip.Tcp.Ports.{port_at}
use ip.Tcp.Task.{TaskEvent, to_input, to_run, tcp_task_round}
use ip.Tcp.Task.Rounds.{Runs, begin, round, Lives, Runs-Lives, Runs-close_wait}
use ip.Tcp.Send.{tcp_send}
use ip.Tcp.Send.Checksum.{IsIp}
use ip.Tcp.Send.Ownership.{Owned, tcp_send-Owned}
use ip.Udp.{udp_input, find_port, lookup_port, datagram_bytes}
use ip.Udp.Datagram.{udp_input-datagram}
use ip.Wifi.{counted, wifi_rxcb}
use ip.Wifi.Frames.{arp_request_frame_answered, tcp_frame_delivered}
use ip.Tests.Setup.{granting, own_ip, peer_ip, own_mac, echo, boot, connected, ack_packet}

-- A segment that acknowledges what was sent, and then the command to close the connection.
abbrev ack_event : TaskEvent
ack_event = to_input (record {
  buffer = record { addr = 900; bytes = ack_packet.buffer };
  length = 20;
  src_ipv4_addr = peer_ip;
})

abbrev close_event : TaskEvent
close_event = to_run (record {
  type = CmdType.cmd_close;
  self_port_num = 80;
  other_port_num = 4096;
  other_ipv4_addr = peer_ip;
  callbacks = echo;
})

abbrev after_ack : Sys
after_ack = (tcp_task_round granting ack_event connected).1

abbrev after_close : Sys
after_close = (tcp_task_round granting close_event after_ack).1

abbrev two_rounds : Runs granting connected (close_event ∷ ack_event ∷ []) after_close
two_rounds = round close_event (round ack_event begin)

Runs-Lives_example : Lives two_rounds 0
Runs-Lives_example = Runs-Lives two_rounds 0

connected-open : (port_at connected.ports 0).state ≢ close_wait
connected-open = cc

Runs-close_wait_example : (port_at after_close.ports 0).state ≢ close_wait
Runs-close_wait_example = Runs-close_wait two_rounds 0 connected-open

-- A request that nobody answers, until its time has come.
abbrev hasty : Env
hasty = record granting { ms_to_ticks = λ n. 1 }

abbrev asking : List ArpEvent
asking = got_request (record { ip = peer_ip; task = 5 }) ∷ []

boot_due :
    let t = (arp_task_rounds hasty asking boot).1 in
    AllDue (u32 (hasty.ticks_now t.log)) boot.arp_pending_tasks
boot_due = omega arith

asking_long_ago :
    let t = (arp_task_rounds hasty asking boot).1 in
    AllLongAgo hasty (u32 (hasty.ticks_now t.log)) t.log
unfolding arp_task_rounds arp_task_round clean_pending expire handle_request find_pending
    alloc_pending join_pending notify_all send_arp_request eth_tx ip.Base.search_from
asking_long_ago = omega arith

requests_answered_example :
    wakes 5 (arp_task_round hasty no_event (arp_task_rounds hasty asking boot).1).1.log ≡ 1
requests_answered_example = requests_answered hasty asking 5 boot boot_due asking_long_ago

abbrev greeting : Buf
greeting = record { addr = 77; bytes = 72 ∷ 105 ∷ [] }

tcp_send-Owned_example :
    Owned greeting connected.log
      (tcp_send granting (λ ps. ps) 80 4096 peer_ip (some greeting) 2 Timeout.no_wait connected)
tcp_send-Owned_example =
    tcp_send-Owned granting (λ ps. ps) 80 4096 peer_ip greeting 2 Timeout.no_wait connected

abbrev peer_mac : MacAddr
peer_mac = record own_mac { m5 = 0x1c }

arp_request_frame_answered_example :
    let request =
      frame_bytes mac_zero peer_mac
        (htons arp_ethertype)
        (arp_packet 1 peer_mac peer_ip mac_zero own_ip) in
    let reply =
      frame_bytes peer_mac own_mac
        (htons arp_ethertype)
        (arp_packet 2 own_mac own_ip peer_mac peer_ip) in
    (wifi_rxcb granting 500 request 42 (some 9) boot).1 ≡ record boot {
      wifi_rx_count = 1;
      wifi_buf_eb_non_null_count = 1;
      log =
          Call.free_rx_buffer 9
          ∷ Call.free 1000
          ∷ Call.wifi_tx reply Err.esp_ok
          ∷ Call.malloc 42 (some 1000)
          ∷ [];
    }
unfolding counted
arp_request_frame_answered_example =
    arp_request_frame_answered granting 500 1000 (some 9) mac_zero peer_mac mac_zero peer_ip 42 boot
      refl

own_ip-IsIp : IsIp own_ip
own_ip-IsIp = omega arith

peer_ip-IsIp : IsIp peer_ip
peer_ip-IsIp = omega arith

abbrev segment : List ℕ
segment = 1 ∷ 2 ∷ 3 ∷ []

tcp_frame_delivered_example :
    let frame =
      frame_bytes own_mac peer_mac
        (htons ipv4_ethertype)
        (packet_bytes 23 6 peer_ip own_ip (segment ++ (0 ∷ []))) in
    (wifi_rxcb granting 500 frame (length frame) none boot).1 ≡ record boot {
      wifi_rx_count = 1;
      wifi_buf_eb_null_count = 1;
      log = Call.free 500 ∷ input_calls granting 1000 segment peer_ip boot;
    }
unfolding counted
tcp_frame_delivered_example =
    tcp_frame_delivered granting 500 1000 none own_mac peer_mac segment (0 ∷ []) peer_ip own_ip boot
      (omega arith) peer_ip-IsIp own_ip-IsIp refl refl

abbrev udp_echo : UdpPort
udp_echo = record { port_number = 7; callback = some 4 }

abbrev with_udp : Sys
with_udp = record boot { udp_ports = udp_echo ∷ [] }

abbrev to_echo : UdpParams
to_echo = record {
  src_port = 9;
  dst_port = 7;
  dst_ipv4_addr = own_ip;
  payload = some greeting;
  data_len = 2;
}

echo_found : find_port 7 with_udp.udp_ports ≡ some udp_echo
unfolding find_port lookup_port
echo_found = refl

udp_input-datagram_example :
    (udp_input (datagram_bytes to_echo 10 greeting.bytes ++ (0 ∷ [])) peer_ip with_udp).1
    ≡ record with_udp { log = Call.udp_received 4 (72 ∷ 105 ∷ 0 ∷ []) 2 peer_ip ∷ [] }
udp_input-datagram_example =
    udp_input-datagram to_echo greeting.bytes (0 ∷ []) peer_ip udp_echo 4 with_udp (omega arith)
      (omega arith) echo_found refl
