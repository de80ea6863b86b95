-- ===== src/Sys/Globals.antt =====
-- components/net_stack/protocols/tcp.h, arp.h and the globals of the .c files.
use ip.Base.{ℕ, Bool, true, false, List, Option, none, replicate, ◌==◌, ◌%◌, ◌/◌}
use ip.Utility.Types.{Ipv4Addr, MacAddr, NetContext, ip_zero}
use ip.Os.{Buf, Callbacks, UdpPort, Log}

-- `enum tcp_state_t`.
pub data TcpState : Type 0 where
  closed listen syn_sent syn_received established : TcpState
  fin_wait_1 close_wait fin_wait_2 last_ack time_wait : TcpState

-- `state == CLOSED`.
abbrev pub is_closed : TcpState → Bool
is_closed closed = true
is_closed _ = false

-- The bits of `struct tcp_flags_t` in its `control` byte.
abbrev pub flag_fin : ℕ → Bool
flag_fin control = control % 2 == 1

abbrev pub flag_syn : ℕ → Bool
flag_syn control = control / 2 % 2 == 1

abbrev pub flag_rst : ℕ → Bool
flag_rst control = control / 4 % 2 == 1

abbrev pub flag_ack : ℕ → Bool
flag_ack control = control / 16 % 2 == 1

-- `struct tcp_unacked_t`; `payload` is its `data`, `none` for NULL.
pub record Unacked : Type 0 where
  pub seq_num : ℕ
  pub in_use : Bool
  pub payload : Option Buf
  pub data_len : ℕ
  pub sent_at : ℕ
  pub control : ℕ

-- `struct tcp_port_t`; `unacked_slots` is the semaphore's handle.
pub record Port : Type 0 where
  pub self_port_num : ℕ
  pub other_port_num : ℕ
  pub other_ipv4_addr : Ipv4Addr
  pub state : TcpState
  pub entered_time_wait_at : ℕ
  pub ack_num : ℕ
  pub seq_num : ℕ
  pub self_window : ℕ
  pub other_window : ℕ
  pub unacked : List Unacked
  pub unacked_slots : ℕ
  pub callbacks : Callbacks

-- `struct arp_pending_t`; the used part of `waiting_tasks`, whose length is `waiting_task_count`.
pub record Pending : Type 0 where
  pub expiration_tick : ℕ
  pub waiting_tasks : List ℕ
  pub ip : Ipv4Addr

-- A row of `ip_mac_cache`: 4 bytes of IP, 6 bytes of MAC.
pub record CacheRow : Type 0 where
  pub ip : Ipv4Addr
  pub mac : MacAddr

-- All globals, and the calls made so far. `self_net` is declared in four files as a common symbol.
pub record Sys : Type 0 where
  pub self_net : NetContext
  pub self_mac_addr : MacAddr
  pub self_ip_addr : Ipv4Addr
  pub ip_mac_cache : List CacheRow
  pub ip_mac_cache_top : ℕ
  pub arp_pending_tasks : List Pending
  pub has_ipv4_queue : Bool
  pub ports : List Port
  pub udp_ports : List UdpPort
  pub wifi_rx_count : ℕ
  pub wifi_buf_eb_null_count : ℕ
  pub wifi_buf_eb_non_null_count : ℕ
  pub log : Log

-- Zeroed objects, as static storage and `{}` give them.
abbrev pub callbacks_zero : Callbacks
callbacks_zero = record { on_receive = none; on_connect = none; on_disconnect = none }

abbrev pub unacked_zero : Unacked
unacked_zero = record {
  seq_num = 0;
  in_use = false;
  payload = none;
  data_len = 0;
  sent_at = 0;
  control = 0;
}

abbrev pub max_unacked : ℕ
max_unacked = 8

abbrev pub port_zero : Port
port_zero = record {
  self_port_num = 0;
  other_port_num = 0;
  other_ipv4_addr = ip_zero;
  state = closed;
  entered_time_wait_at = 0;
  ack_num = 0;
  seq_num = 0;
  self_window = 0;
  other_window = 0;
  unacked = replicate max_unacked unacked_zero;
  unacked_slots = 0;
  callbacks = callbacks_zero;
}
