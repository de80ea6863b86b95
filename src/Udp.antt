-- ===== src/Udp.antt =====
-- components/net_stack/protocols/udp.c: the port table, input and output of datagrams.
pub mod Ports
pub mod Datagram
use ip.Base.{
  ℕ, ◌+◌, ◌-◌, ◌==◌, ◌||◌, ltb, if◌then◌else◌, Bool, true, false, List, [], ◌∷◌, Option, none, some,
  State, ◌>>=◌, ◌>>◌, return, get, skip, u8, u16, take, drop, length, set, get_or,
}
use ip.Utility.Types.{Ipv4Addr, NetContext}
use ip.Utility.Endian.{put16, htons, ntohs, load16}
use ip.Os.{Buf, Env, Call, Timeout, Queue, Err, UdpPort, UdpParams}
use ip.Sys.{Sys, malloc, fault, free_buf, queue_send, record_call}
use ip.Ipv4.Transmit.{send_ipv4_packet}

abbrev pub udp_protocol_number : ℕ
udp_protocol_number = 17

-- `sizeof(struct udp_header_t)`.
abbrev pub udp_header_size : ℕ
udp_header_size = 8

unfoldable pub lookup_port : ℕ → List UdpPort → Option UdpPort
lookup_port n [] = none
lookup_port n (p ∷ ps) = if p.port_number == n then some p else lookup_port n ps

-- `find_port`, whose parameter is a `uint8_t`: what the caller passes is cut to 8 bits.
unfoldable pub find_port : ℕ → List UdpPort → Option UdpPort
find_port port_number ports = lookup_port (u8 port_number) ports

-- `port->callback(...)`; a null callback is not tested for.
abbrev pub call_back : UdpPort → List ℕ → ℕ → Ipv4Addr → State Sys (Unit {0})
call_back p payload len src = elim p.callback [
  | none ↦ fault
  | some f ↦ record_call (Call.udp_received f payload len src)
]

-- `udp_input`. It reads the header without knowing how long the buffer is.
unfoldable pub udp_input : List ℕ → Ipv4Addr → State Sys (Unit {0})
udp_input buffer src_addr =
    if ltb (length buffer) udp_header_size
    then fault
    else (if ltb (ntohs (load16 buffer 4)) udp_header_size then skip else (do
      s ← get
      elim (find_port (ntohs (load16 buffer 2)) s.udp_ports) [
        | none ↦ skip
        | some p ↦
            call_back p (drop udp_header_size buffer)
              (u16 (ntohs (load16 buffer 4) + 65536 - udp_header_size)) src_addr
      ]))

abbrev pub queue_answer : Bool → Err
queue_answer true = Err.esp_ok
queue_answer false = Err.esp_err_no_mem

-- `udp_create_port`.
unfoldable pub udp_create_port : Env → UdpPort → State Sys Err
udp_create_port env port = elim port.callback [
  | none ↦ return Err.esp_err_invalid_arg
  | some f ↦ do
    sent ←
        queue_send env Queue.udp_port_queue (λ b. Call.send_udp_port_queue port Timeout.no_wait b)
    return (queue_answer sent)
]

-- `udp_set_self_net_context`, on the symbol that the four protocols share.
unfoldable pub udp_set_self_net_context : NetContext → State Sys (Unit {0})
udp_set_self_net_context net s = (tt, record s { self_net = net })

-- `udp_send`.
unfoldable pub udp_send : Env → UdpParams → State Sys Err
udp_send env params = do
  sent ← queue_send env Queue.udp_send_queue (λ b. Call.send_udp_queue params Timeout.no_wait b)
  return (queue_answer sent)

-- What the datagram holds behind its header: the payload, or what the allocator left.
abbrev pub datagram_payload : Env → UdpParams → Sys → List ℕ
datagram_payload env p s = elim p.payload [
  | none ↦ take p.data_len (env.uninit s.log p.data_len)
  | some b ↦ take p.data_len b.bytes
]

-- The header, with a checksum of 0 for none, and the payload.
abbrev pub datagram_bytes : UdpParams → ℕ → List ℕ → List ℕ
datagram_bytes p datagram_length payload =
    put16 (htons p.src_port)
      (put16 (htons p.dst_port) (put16 (htons datagram_length) (0 ∷ 0 ∷ payload)))

-- The copy frees the payload only if it copies something.
abbrev pub free_copied : UdpParams → State Sys (Unit {0})
free_copied p = if ltb 0 p.data_len then free_buf p.payload else skip

abbrev pub udp_overreads : UdpParams → Bool
udp_overreads p = elim p.payload [ none ↦ false | some b ↦ ltb (length b.bytes) p.data_len ]

-- `udp_send_internal`.
unfoldable pub udp_send_internal : Env → UdpParams → State Sys Err
udp_send_internal env p = do
  let datagram_length = u16 (udp_header_size + p.data_len)
  datagram ← malloc env datagram_length
  s ← get
  elim datagram [
    | none ↦ return Err.esp_err_no_mem
    | some addr ↦
        if udp_overreads p || ltb datagram_length (udp_header_size + p.data_len)
        then (do fault; return Err.esp_fail)
        else (do
          free_copied p
          send_ipv4_packet env (record {
            src_ipv4_addr = s.self_net.ip;
            dst_ipv4_addr = p.dst_ipv4_addr;
            protocol = udp_protocol_number;
            payload = record {
              addr = addr;
              bytes = datagram_bytes p datagram_length (datagram_payload env p s);
            };
            data_len = datagram_length;
          }))
  ]

-- The loop of `allocate_port`: the first entry with port number 0 is overwritten.
unfoldable pub place_port : UdpPort → List UdpPort → Option (List UdpPort)
place_port port [] = none
place_port port (p ∷ ps) =
    if p.port_number == 0
    then some (port ∷ ps)
    else (elim (place_port port ps) [ none ↦ none | some rest ↦ some (p ∷ rest) ])

-- `allocate_port`.
unfoldable pub allocate_port : UdpPort → State Sys Err
allocate_port port s = elim (place_port port s.udp_ports) [
  | none ↦ (Err.esp_err_no_mem, s)
  | some ports ↦ (Err.esp_ok, record s { udp_ports = ports })
]

-- What one round of `udp_task` receives.
pub data UdpEvent : Type 0 where
  no_item : UdpEvent
  new_port : UdpPort → UdpEvent
  to_send : UdpParams → UdpEvent

-- One round of `udp_task`.
unfoldable pub udp_task_round : Env → UdpEvent → State Sys (Unit {0})
udp_task_round env no_item = skip
udp_task_round env (new_port p) = do allocate_port p; skip
udp_task_round env (to_send p) = do udp_send_internal env p; skip
