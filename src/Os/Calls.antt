-- ===== src/Os/Calls.antt =====
-- The calls that leave the program, and the parameter that answers them.
use ip.Base.{ℕ, Bool, List, Option}
use ip.Utility.Types.{Ipv4Addr}
use ip.Os.Messages.{
  Err, Ipv4Params, ArpRequest, ArpEntry, TcpParams, TcpInputEvent, PortCmd, UdpPort, UdpParams,
}

-- `TickType_t timeout`: 0, `portMAX_DELAY`, or a number of ticks.
pub data Timeout : Type 0 where
  no_wait : Timeout
  max_delay : Timeout
  ticks : ℕ → Timeout

-- A call with its arguments and its answer. `fault` is no call: it marks a read or a write outside
-- of an object, or a call of a null function pointer, which C leaves undefined.
pub data Call : Type 0 where
  fault : Call
  malloc : ℕ → Option ℕ → Call
  free : ℕ → Call
  wifi_tx : List ℕ → Err → Call
  tick_count : ℕ → Call
  notify_give : ℕ → Call
  notify_take : Call
  send_arp_request_queue : ArpRequest → Timeout → Bool → Call
  send_arp_input_queue : ArpEntry → Timeout → Bool → Call
  send_ipv4_queue : Ipv4Params → Timeout → Bool → Call
  send_tcp_queue : TcpParams → Timeout → Bool → Call
  send_tcp_input_queue : TcpInputEvent → Timeout → Bool → Call
  send_port_cmd_queue : PortCmd → Timeout → Bool → Call
  send_udp_port_queue : UdpPort → Timeout → Bool → Call
  send_udp_queue : UdpParams → Timeout → Bool → Call
  sem_create : Option ℕ → Call
  sem_take : ℕ → Timeout → Bool → Call
  sem_give : ℕ → Call
  sem_count : ℕ → ℕ → Call
  sem_delete : ℕ → Call
  tcp_received : ℕ → List ℕ → ℕ → Call
  tcp_connected : ℕ → ℕ → Ipv4Addr → Call
  tcp_disconnected : ℕ → Call
  udp_received : ℕ → List ℕ → ℕ → Ipv4Addr → Call
  free_rx_buffer : ℕ → Call

-- Newest first.
abbrev pub Log : Type 0
Log = List Call

pub data Queue : Type 0 where
  arp_request_queue arp_input_queue ipv4_transmit_queue : Queue
  tcp_send_queue tcp_input_queue port_cmd_queue : Queue
  udp_port_queue udp_send_queue : Queue

-- The answers of the outside, each from all that the program has called so far. `uninit` is what
-- a fresh object holds before the program writes to it. `ms_to_ticks` is `pdMS_TO_TICKS`, which the
-- configuration fixes.
pub record Env : Type 0 where
  pub malloc_at : Log → ℕ → Option ℕ
  pub wifi_result : Log → List ℕ → Err
  pub queue_send : Queue → Log → Bool
  pub sem_new : Log → Option ℕ
  pub sem_taken : Log → ℕ → Bool
  pub sem_counts : Log → ℕ → ℕ
  pub ticks_now : Log → ℕ
  pub uninit : Log → ℕ → List ℕ
  pub ms_to_ticks : ℕ → ℕ
