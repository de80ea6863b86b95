-- ===== src/Os/Messages.antt =====
-- The structures that tasks hand to one another over queues: components/net_stack/protocols/*.h
-- and the queue items of protocols/tcp.c.
use ip.Base.{ℕ, Bool, List, Option}
use ip.Utility.Types.{Ipv4Addr, MacAddr}

-- A heap block: its address, and its content at the time it is handed on.
pub record Buf : Type 0 where
  pub addr : ℕ
  pub bytes : List ℕ

-- `esp_err_t`, with the values that the program names.
pub data Err : Type 0 where
  esp_ok : Err
  esp_fail : Err
  esp_err_no_mem : Err
  esp_err_invalid_arg : Err
  esp_err_timeout : Err
  esp_err_other : ℕ → Err

-- `struct ipv4_transmit_params_t`; `payload` is its `data`.
pub record Ipv4Params : Type 0 where
  pub src_ipv4_addr : Ipv4Addr
  pub dst_ipv4_addr : Ipv4Addr
  pub protocol : ℕ
  pub payload : Buf
  pub data_len : ℕ

-- `struct arp_request_t`.
pub record ArpRequest : Type 0 where
  pub ip : Ipv4Addr
  pub task : ℕ

-- `struct arp_entry_t`.
pub record ArpEntry : Type 0 where
  pub ip : Ipv4Addr
  pub mac : MacAddr

-- `struct tcp_transmit_params_t`; `payload` is its `data`, `none` for NULL.
pub record TcpParams : Type 0 where
  pub dst_ipv4_addr : Ipv4Addr
  pub src_port : ℕ
  pub dst_port : ℕ
  pub seq_num : ℕ
  pub control : ℕ
  pub is_retransmission : Bool
  pub payload : Option Buf
  pub data_len : ℕ

-- `struct tcp_input_event_t`; `length` is the field, beside the block itself.
pub record TcpInputEvent : Type 0 where
  pub buffer : Buf
  pub length : ℕ
  pub src_ipv4_addr : Ipv4Addr

-- The three callbacks of a port, `none` for NULL; a number stands for a function.
pub record Callbacks : Type 0 where
  pub on_receive : Option ℕ
  pub on_connect : Option ℕ
  pub on_disconnect : Option ℕ

pub data CmdType : Type 0 where
  cmd_create_and_listen cmd_create_and_connect cmd_close : CmdType

-- `struct tcp_port_cmd_t`.
pub record PortCmd : Type 0 where
  pub type : CmdType
  pub self_port_num : ℕ
  pub other_port_num : ℕ
  pub other_ipv4_addr : Ipv4Addr
  pub callbacks : Callbacks

-- `struct udp_port_t`.
pub record UdpPort : Type 0 where
  pub port_number : ℕ
  pub callback : Option ℕ

-- `struct udp_transmit_params_t`.
pub record UdpParams : Type 0 where
  pub src_port : ℕ
  pub dst_port : ℕ
  pub dst_ipv4_addr : Ipv4Addr
  pub payload : Option Buf
  pub data_len : ℕ
