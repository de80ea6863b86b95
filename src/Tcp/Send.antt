-- ===== src/Tcp/Send.antt =====
-- tcp.c: putting segments on the send queue, and sending them from the TCP task.
pub mod Checksum
pub mod Handover
pub mod Numbering
pub mod Ownership
use ip.Base.{
  ℕ, ◌+◌, ◌/◌, Bool, true, false, ◌&&◌, ◌||◌, not, ltb, if◌then◌else◌, List, [], ◌∷◌, ◌++◌, Option,
  none, some, State, ◌>>=◌, ◌>>◌, return, get, modify, skip, u16, u32, take, set, length,
}
use ip.Utility.Types.{Ipv4Addr}
use ip.Utility.Endian.{put16, htons}
use ip.Utility.Checksum.{net_checksum}
use ip.Os.{Buf, Env, Call, Timeout, Queue, Err, TcpParams, Ipv4Params}
use ip.Sys.{
  Sys, Port, is_closed, TcpState, flag_fin, flag_syn, malloc, free_buf, fault, queue_send,
  tick_count, sem_take, sem_give,
}
use ip.Ipv4.Transmit.{send_ipv4_packet}
use ip.Tcp.Ports.{port_at, unacked_at, update_port, find_port, find_empty_unacked}
use ip.Tcp.Segment.{
  Header, tcp_protocol_number, tcp_header_size, pseudo_header_size, put_front, put_pseudo,
}

abbrev pub tcp_enqueue_answer : Bool → Err
tcp_enqueue_answer true = Err.esp_ok
tcp_enqueue_answer false = Err.esp_err_no_mem

-- `tcp_enqueue`.
unfoldable pub tcp_enqueue : Env → TcpParams → Timeout → State Sys Err
tcp_enqueue env params timeout = do
  result ← queue_send env Queue.tcp_send_queue (λ b. Call.send_tcp_queue params timeout b)
  return (tcp_enqueue_answer result)

-- How much a segment adds to the sequence number.
unfoldable pub seq_increment : TcpParams → ℕ
seq_increment p = u16 (p.data_len + (if flag_syn p.control || flag_fin p.control then 1 else 0))

-- The payload as `memcpy` copies it; with no payload the space keeps what the allocator left.
abbrev pub segment_payload : Env → TcpParams → Sys → List ℕ
segment_payload env p s = elim p.payload [
  | none ↦ take p.data_len (env.uninit s.log p.data_len)
  | some b ↦ take p.data_len b.bytes
]

-- A payload shorter than `data_len` is read past its end.
abbrev pub overreads : TcpParams → Bool
overreads p = elim p.payload [ none ↦ false | some b ↦ ltb (length b.bytes) p.data_len ]

-- The header that goes out.
abbrev pub segment_header : TcpParams → Port → ℕ → Header
segment_header p port seq = record {
  src_port = p.src_port;
  dst_port = p.dst_port;
  seq_num = seq;
  ack_num = port.ack_num;
  d_offset = tcp_header_size / 4;
  control = p.control;
  window = port.self_window;
}

-- The checksum over the pseudo header and the segment with a zero checksum field.
unfoldable pub segment_checksum : Ipv4Addr → TcpParams → Header → ℕ → List ℕ → ℕ
segment_checksum self_ip p h datagram_length payload =
    net_checksum
      (put_pseudo self_ip p.dst_ipv4_addr datagram_length (put_front h (0 ∷ 0 ∷ 0 ∷ 0 ∷ payload)))
      (u16 (datagram_length + pseudo_header_size))

-- The datagram, moved to the front of its block.
unfoldable pub segment_bytes : Ipv4Addr → TcpParams → Header → ℕ → List ℕ → List ℕ
segment_bytes self_ip p h datagram_length payload =
    put_front h
      (put16 (htons (segment_checksum self_ip p h datagram_length payload)) (0 ∷ 0 ∷ payload))

-- The end of `tcp_send_internal`: checksum, and the hand-over to IPv4.
unfoldable pub finish_segment : Env → TcpParams → Port → ℕ → ℕ → ℕ → List ℕ → State Sys Err
finish_segment env p port seq datagram_length datagram payload = do
  s ← get
  send_ipv4_packet env (record {
    src_ipv4_addr = s.self_net.ip;
    dst_ipv4_addr = p.dst_ipv4_addr;
    protocol = tcp_protocol_number;
    payload = record {
      addr = datagram;
      bytes = segment_bytes s.self_net.ip p (segment_header p port seq) datagram_length payload;
    };
    data_len = datagram_length;
  })

-- The slot that remembers a segment until it is acknowledged.
abbrev pub remember : Port → TcpParams → ℕ → ℕ → Port
remember port p j now = record port {
  unacked = set port.unacked j (record {
    seq_num = port.seq_num;
    in_use = true;
    payload = p.payload;
    data_len = p.data_len;
    sent_at = now;
    control = p.control;
  });
  seq_num = u32 (port.seq_num + seq_increment p);
}

-- The sequence number goes up and the segment takes a slot, or neither.
unfoldable pub number_segment : Env → TcpParams → ℕ → ℕ → ℕ → List ℕ → State Sys Err
number_segment env p i datagram_length datagram payload = do
  s ← get
  let port = port_at s.ports i
  if ltb 0 (seq_increment p) && not p.is_retransmission
      then elim (find_empty_unacked port) [
        | none ↦ do free_buf p.payload; return Err.esp_err_no_mem
        | some j ↦ do
          now ← tick_count env
          update_port i (λ q. remember q p j now)
          finish_segment env p port port.seq_num datagram_length datagram payload
      ]
      else finish_segment env p port p.seq_num datagram_length datagram payload

-- `tcp_send_internal`. A datagram too long for its 16-bit length would be written past its block.
unfoldable pub tcp_send_internal : Env → TcpParams → State Sys Err
tcp_send_internal env p = do
  let datagram_length = u16 (tcp_header_size + p.data_len)
  datagram ← malloc env (datagram_length + pseudo_header_size)
  s ← get
  elim datagram [
    | none ↦ do free_buf p.payload; return Err.esp_err_no_mem
    | some addr ↦ elim (find_port p.src_port p.dst_port p.dst_ipv4_addr s.ports) [
      | none ↦ do free_buf p.payload; return Err.esp_fail
      | some i ↦
          if overreads p || ltb datagram_length (tcp_header_size + p.data_len)
          then (do fault; return Err.esp_fail)
          else number_segment env p i datagram_length addr (segment_payload env p s)
    ]
  ]

-- The tail of `tcp_enqueue_reliable`, once the semaphore is taken.
unfoldable pub enqueue_taken : Env → TcpParams → ℕ → State Sys Err
enqueue_taken env p i = do
  s ← get
  if is_closed (port_at s.ports i).state then (do free_buf p.payload; return Err.esp_fail) else (do
    sent ← queue_send env Queue.tcp_send_queue (λ b. Call.send_tcp_queue p Timeout.no_wait b)
    if sent then return Err.esp_ok else (do
      sem_give (port_at s.ports i).unacked_slots
      free_buf p.payload
      return Err.esp_err_no_mem))

-- `tcp_enqueue_reliable`. While it waits for the semaphore the TCP task may change the ports, by
-- `meanwhile`; called from the TCP task itself, nothing does.
unfoldable pub tcp_enqueue_reliable :
    Env → (List Port → List Port) → TcpParams → Timeout → State Sys Err
tcp_enqueue_reliable env meanwhile p timeout = do
  s ← get
  elim (find_port p.src_port p.dst_port p.dst_ipv4_addr s.ports) [
    | none ↦ do free_buf p.payload; return Err.esp_err_invalid_arg
    | some i ↦ do
      taken ← sem_take env (port_at s.ports i).unacked_slots timeout
      modify (λ t. record t { ports = meanwhile t.ports })
      if taken then enqueue_taken env p i else (do free_buf p.payload; return Err.esp_err_timeout)
  ]

-- `ACK + PSH`.
abbrev pub ack_psh : ℕ
ack_psh = 24

-- `tcp_send`, the call that applications make.
unfoldable pub tcp_send :
    Env → (List Port → List Port) → ℕ → ℕ → Ipv4Addr → Option Buf → ℕ → Timeout → State Sys Err
tcp_send env meanwhile src_port_num dst_port_num dst_ipv4_addr payload len timeout = do
  s ← get
  elim (find_port src_port_num dst_port_num dst_ipv4_addr s.ports) [
    | none ↦ do free_buf payload; return Err.esp_fail
    | some i ↦
        tcp_enqueue_reliable env meanwhile
          (record {
            dst_ipv4_addr = (port_at s.ports i).other_ipv4_addr;
            src_port = (port_at s.ports i).self_port_num;
            dst_port = (port_at s.ports i).other_port_num;
            seq_num = 0;
            control = ack_psh;
            is_retransmission = false;
            payload = payload;
            data_len = len;
          })
          timeout
  ]
