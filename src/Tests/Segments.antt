-- ===== src/Tests/Segments.antt =====
-- Examples of the theorems on tcp.c, and runs of its connection states.
use ip.Base.{
  ℕ, ◌⊎◌, ◌<◌, ◌≡◌, refl, arith, true, false, List, [], ◌∷◌, ◌++◌, none, some, length, set, IsFirst,
}
use ip.Utility.Types.{Ipv4Addr}
use ip.Utility.Checksum.{net_checksum}
use ip.Os.{Call, Timeout, TcpParams, Ipv4Params}
use ip.Sys.{Port, Unacked}
use ip.Tcp.Ports.{find_port, find_empty_unacked, port_at, tcp_reset_port}
use ip.Tcp.Ports.Find.{IsConnection, IsEmptySlot, find_port_iff, find_empty_unacked_iff}
use ip.Tcp.Ports.Reset.{reset_port, reset_calls, tcp_reset_port_lem}
use ip.Tcp.Ports.Touch.{TouchesOnly}
use ip.Tcp.Segment.{Header, put_front, put_pseudo, read_header}
use ip.Tcp.Segment.Layout.{Fits, read_header-put_front}
use ip.Tcp.Send.{segment_bytes, seq_increment, tcp_send_internal}
use ip.Tcp.Send.Numbering.{Numbered, Remembers, tcp_send_internal-Numbered}
use ip.Tcp.Send.Handover.{Carries, expected_header, new_segment_sent}
use ip.Tcp.Send.Checksum.{segment_checksum_verifies}
use ip.Tcp.Input.{select_port}
use ip.Tcp.Acks.{ack_slots}
use ip.Tcp.Receive.{input_tcp_internal}
use ip.Tcp.Receive.Slots.{Acked, ack_slots-Acked}
use ip.Tcp.Receive.Moves.{Move}
use ip.Tcp.Receive.Diagram.{input_tcp_internal-TouchesOnly, input_tcp_internal-Move}
use ip.Tests.Setup.{granting, own_ip, peer_ip, ack_packet, connected, connected_port}

tcp_reset_port_lem_example : tcp_reset_port granting 0 connected ≡ (
  tt,
  record connected {
    ports = set connected.ports 0 (reset_port (port_at connected.ports 0));
    log = reset_calls granting (port_at connected.ports 0) connected;
  },
)
tcp_reset_port_lem_example = tcp_reset_port_lem granting 0 connected (omega arith)

abbrev sent_header : Header
sent_header = record {
  src_port = 80;
  dst_port = 4096;
  seq_num = 12;
  ack_num = 259;
  d_offset = 5;
  control = 24;
  window = 1500;
}

sent_header-Fits : Fits sent_header
sent_header-Fits = record {
  src_port = omega arith;
  dst_port = omega arith;
  seq_num = omega arith;
  ack_num = omega arith;
  d_offset = omega arith;
  control = omega arith;
  window = omega arith;
}

read_header-put_front_example : read_header (put_front sent_header (0 ∷ 0 ∷ [])) ≡ sent_header
read_header-put_front_example = read_header-put_front sent_header (0 ∷ 0 ∷ []) sent_header-Fits

abbrev reply_params : TcpParams
reply_params = record {
  dst_ipv4_addr = peer_ip;
  src_port = 80;
  dst_port = 4096;
  seq_num = 0;
  control = 24;
  is_retransmission = false;
  payload = none;
  data_len = 3;
}

segment_checksum_verifies_example :
    let seen =
      put_pseudo own_ip peer_ip 23
        (segment_bytes own_ip reply_params sent_header 23 (1 ∷ 2 ∷ 3 ∷ [])) in
    net_checksum seen (length seen) ≡ 0
segment_checksum_verifies_example =
    segment_checksum_verifies own_ip reply_params sent_header (1 ∷ 2 ∷ 3 ∷ []) (omega arith)
      (omega arith) sent_header-Fits (omega arith) (omega arith)

ack_slots-Acked_example :
    let (left, t) = ack_slots 12 7 connected_port.unacked connected in
    (calls : List Call) × Acked 12 7 connected_port.unacked left calls
    × (t ≡ record connected { log = calls ++ [] })
ack_slots-Acked_example = ack_slots-Acked 12 7 connected_port.unacked connected

abbrev first_slot : Unacked
first_slot = record {
  seq_num = 7;
  in_use = true;
  payload = none;
  data_len = 5;
  sent_at = 0;
  control = 24;
}

select_connected : select_port ack_packet connected.ports ≡ some 0
unfolding select_port find_port read_header ip.Utility.Endian.ntohs ip.Utility.Types.ip_eq
select_connected = refl

input_tcp_internal-TouchesOnly_example :
    TouchesOnly 0 connected (input_tcp_internal granting ack_packet connected).1
input_tcp_internal-TouchesOnly_example =
    input_tcp_internal-TouchesOnly granting ack_packet connected 0 select_connected

input_tcp_internal-Move_example :
    Move
      (port_at connected.ports 0).state
      (port_at (input_tcp_internal granting ack_packet connected).1.ports 0).state
input_tcp_internal-Move_example = input_tcp_internal-Move granting ack_packet connected 0

find_connected : find_port 80 4096 peer_ip connected.ports ≡ some 0
unfolding find_port ip.Utility.Types.ip_eq
find_connected = refl

connected_slot : find_empty_unacked connected_port ≡ some 1
unfolding find_empty_unacked
connected_slot = refl

reply_counts : 0 < seq_increment reply_params
unfolding seq_increment
reply_counts = omega arith

tcp_send_internal-Numbered_example :
    ((tcp_send_internal granting reply_params connected).1.ports ≡ connected.ports)
    ⊎ ((i : ℕ) × IsFirst (IsConnection 80 4096 peer_ip) connected.ports i
        × Numbered reply_params i connected.ports
            (tcp_send_internal granting reply_params connected).1.ports)
tcp_send_internal-Numbered_example = tcp_send_internal-Numbered granting reply_params connected

abbrev new_params : TcpParams
new_params = record reply_params { payload = some (record { addr = 300; bytes = 1 ∷ 2 ∷ 3 ∷ [] }) }

new_counts : 0 < seq_increment new_params
unfolding seq_increment
new_counts = omega arith

connected-IsFirst : IsFirst (IsConnection 80 4096 peer_ip) connected.ports 0
connected-IsFirst = (find_port_iff 80 4096 peer_ip connected.ports 0).0 find_connected

slot-IsFirst : IsFirst IsEmptySlot connected_port.unacked 1
slot-IsFirst = (find_empty_unacked_iff connected_port 1).0 connected_slot

new_header-Fits : Fits (expected_header new_params connected_port)
new_header-Fits = record {
  src_port = omega arith;
  dst_port = omega arith;
  seq_num = omega arith;
  ack_num = omega arith;
  d_offset = omega arith;
  control = omega arith;
  window = omega arith;
}

new_segment_sent_example :
    (d : Ipv4Params) × (q : Port) × Carries new_params connected_port own_ip (1 ∷ 2 ∷ 3 ∷ []) d
    × Remembers new_params 1 1 connected_port q
    × ((tcp_send_internal granting new_params connected).1 ≡ record connected {
      ports = set connected.ports 0 q;
      log =
          Call.send_ipv4_queue d Timeout.no_wait true
          ∷ Call.tick_count 1
          ∷ Call.malloc 35 (some 1000)
          ∷ [];
    })
new_segment_sent_example =
    new_segment_sent granting new_params (record { addr = 300; bytes = 1 ∷ 2 ∷ 3 ∷ [] }) 0 1 1000
      connected connected-IsFirst slot-IsFirst refl (omega arith) refl (omega arith) new_counts refl
      new_header-Fits refl refl
