-- ===== src/Tests/Setup.antt =====
-- A concrete environment and states: an outside that grants every call, and a table with one port.
use ip.Base.{◌+◌, ◌/◌, true, [], ◌∷◌, none, some, replicate, length}
use ip.Utility.Types.{Ipv4Addr, MacAddr, ip_zero, mac_zero}
use ip.Os.{Env, Err, Callbacks}
use ip.Sys.{Sys, Port, port_zero, unacked_zero, listen, established}
use ip.Tcp.Input.{Input}

-- Each block has a new address.
abbrev pub granting : Env
granting = record {
  malloc_at = λ l n. some (1000 + length l);
  wifi_result = λ l f. Err.esp_ok;
  queue_send = λ q l. true;
  sem_new = λ l. some 7;
  sem_taken = λ l h. true;
  sem_counts = λ l h. 8;
  ticks_now = λ l. length l;
  uninit = λ l n. replicate n 0xa5;
  ms_to_ticks = λ n. n / 10;
}

abbrev pub own_ip : Ipv4Addr
own_ip = record { i0 = 192; i1 = 168; i2 = 1; i3 = 230 }

abbrev pub peer_ip : Ipv4Addr
peer_ip = record { i0 = 192; i1 = 168; i2 = 1; i3 = 214 }

abbrev pub own_mac : MacAddr
own_mac = record { m0 = 0x30; m1 = 0x83; m2 = 0x98; m3 = 0x94; m4 = 0xec; m5 = 0x1b }

abbrev pub boot : Sys
boot = record {
  self_net = record { mac = own_mac; ip = own_ip };
  self_mac_addr = own_mac;
  self_ip_addr = own_ip;
  ip_mac_cache = replicate 16 (record { ip = ip_zero; mac = mac_zero });
  ip_mac_cache_top = 0;
  arp_pending_tasks =
      replicate 8 (record { expiration_tick = 0; waiting_tasks = []; ip = ip_zero });
  has_ipv4_queue = true;
  ports = replicate 8 port_zero;
  udp_ports = [];
  wifi_rx_count = 0;
  wifi_buf_eb_null_count = 0;
  wifi_buf_eb_non_null_count = 0;
  log = [];
}

abbrev pub echo : Callbacks
echo = record { on_receive = some 1; on_connect = some 2; on_disconnect = some 3 }

-- A SYN from port 4096 to port 80, with sequence number 258.
abbrev pub syn_packet : Input
syn_packet = record {
  buffer =
      16 ∷ 0 ∷ 0 ∷ 80 ∷ 0 ∷ 0 ∷ 1 ∷ 2 ∷ 0 ∷ 0 ∷ 0 ∷ 0 ∷ 0x50 ∷ 2 ∷ 5 ∷ 220 ∷ 0 ∷ 0 ∷ 0 ∷ 0 ∷ [];
  length = 20;
  src_ipv4_addr = peer_ip;
}

-- A port that is connected to port 4096 of the peer, with one segment on its way.
abbrev pub connected_port : Port
connected_port = record port_zero {
  self_port_num = 80;
  other_port_num = 4096;
  other_ipv4_addr = peer_ip;
  state = established;
  seq_num = 12;
  unacked =
      record { seq_num = 7; in_use = true; payload = none; data_len = 5; sent_at = 0; control = 24 }
      ∷ replicate 7 unacked_zero;
  unacked_slots = 7;
  callbacks = echo;
}

abbrev pub connected : Sys
connected = record boot { ports = connected_port ∷ replicate 7 port_zero }

-- A segment from port 4096 to port 80 that acknowledges number 12.
abbrev pub ack_packet : Input
ack_packet = record {
  buffer =
      16 ∷ 0 ∷ 0 ∷ 80 ∷ 0 ∷ 0 ∷ 1 ∷ 2 ∷ 0 ∷ 0 ∷ 0 ∷ 12 ∷ 0x50 ∷ 16 ∷ 5 ∷ 220 ∷ 0 ∷ 0 ∷ 0 ∷ 0 ∷ [];
  length = 20;
  src_ipv4_addr = peer_ip;
}

-- A port that listens on 80.
abbrev pub listening : Sys
listening = record boot {
  ports =
      record port_zero { self_port_num = 80; state = listen; unacked_slots = 7; callbacks = echo }
      ∷ replicate 7 port_zero;
}
