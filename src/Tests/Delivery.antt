-- ===== src/Tests/Delivery.antt =====
-- Examples of the theorems on data that tcp.c receives.
use ip.Base.{◌≤◌, ◌≡◌, ◌≢◌, refl, arith, [], ◌∷◌, some, set}
use ip.Utility.Types.{Ipv4Addr}
use ip.Tcp.Ports.{find_port}
use ip.Tcp.Segment.{read_header}
use ip.Tcp.Input.{Input, header, select_port}
use ip.Tcp.Receive.{input_tcp_internal}
use ip.Tcp.Receive.Data.{IsData, after_data, data_calls}
use ip.Tcp.Receive.Delivery.{data_delivered, duplicate_ignored, out_of_order_ignored}
use ip.Tests.Setup.{granting, peer_ip, connected, connected_port}

-- Two bytes in order from port 4096, which acknowledge all that port 80 has sent.
abbrev data_packet : Input
data_packet = record {
  buffer =
      16 ∷ 0 ∷ 0 ∷ 80 ∷ 0 ∷ 0 ∷ 0 ∷ 0 ∷ 0 ∷ 0 ∷ 0 ∷ 12 ∷ 0x50 ∷ 24 ∷ 5 ∷ 220 ∷ 0 ∷ 0 ∷ 0 ∷ 0 ∷ 72
      ∷ 105 ∷ [];
  length = 22;
  src_ipv4_addr = peer_ip;
}

-- The same bytes under number 258.
abbrev early_packet : Input
early_packet = record {
  buffer =
      16 ∷ 0 ∷ 0 ∷ 80 ∷ 0 ∷ 0 ∷ 1 ∷ 2 ∷ 0 ∷ 0 ∷ 0 ∷ 12 ∷ 0x50 ∷ 24 ∷ 5 ∷ 220 ∷ 0 ∷ 0 ∷ 0 ∷ 0 ∷ 72
      ∷ 105 ∷ [];
  length = 22;
  src_ipv4_addr = peer_ip;
}

data_packet-IsData : IsData data_packet
unfolding read_header
data_packet-IsData = record {
  whole = refl;
  header_whole = refl;
  not_rst = refl;
  not_syn = refl;
  not_fin = refl;
  has_ack = refl;
  some_data = omega arith;
}

early_packet-IsData : IsData early_packet
unfolding read_header
early_packet-IsData = record {
  whole = refl;
  header_whole = refl;
  not_rst = refl;
  not_syn = refl;
  not_fin = refl;
  has_ack = refl;
  some_data = omega arith;
}

data_packet_selects : select_port data_packet connected.ports ≡ some 0
unfolding select_port find_port read_header ip.Utility.Endian.ntohs ip.Utility.Types.ip_eq
data_packet_selects = refl

early_packet_selects : select_port early_packet connected.ports ≡ some 0
unfolding select_port find_port read_header ip.Utility.Endian.ntohs ip.Utility.Types.ip_eq
early_packet_selects = refl

in_order : (header data_packet).seq_num ≡ 0
unfolding read_header ip.Utility.Endian.ntohl
in_order = refl

acknowledges_all : (header data_packet).ack_num ≤ 12
unfolding read_header ip.Utility.Endian.ntohl
acknowledges_all = omega arith

too_early : (header early_packet).seq_num ≡ 258
unfolding read_header ip.Utility.Endian.ntohl
too_early = refl

data_delivered_example : (input_tcp_internal granting data_packet connected).1 ≡ record connected {
  ports = set connected.ports 0 (after_data data_packet connected_port);
  log = data_calls granting data_packet connected_port [];
}
data_delivered_example =
    data_delivered granting 0 data_packet connected data_packet-IsData data_packet_selects refl
      in_order acknowledges_all

duplicate_ignored_example :
    let t = (input_tcp_internal granting data_packet connected).1 in
    (input_tcp_internal granting data_packet t).1 ≡ t
duplicate_ignored_example =
    duplicate_ignored granting 0 data_packet connected data_packet-IsData data_packet_selects refl
      in_order (omega (arith, in_order)) acknowledges_all

not_expected : (header early_packet).seq_num ≢ 0
not_expected = omega (arith, too_early)

out_of_order_ignored_example : (input_tcp_internal granting early_packet connected).1 ≡ connected
out_of_order_ignored_example =
    out_of_order_ignored granting 0 early_packet connected early_packet-IsData early_packet_selects
      refl not_expected
