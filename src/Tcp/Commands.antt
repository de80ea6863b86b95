-- ===== src/Tcp/Commands.antt =====
-- tcp.c: the calls that put commands and received segments on the queues of the TCP task, and the
-- commands as the task carries them out.
use ip.Base.{
  ℕ, Bool, true, false, ltb, if◌then◌else◌, List, Option, none, some, State, ◌>>=◌, ◌>>◌, return,
  get, take, length,
}
use ip.Utility.Types.{Ipv4Addr, NetContext, ip_zero}
use ip.Os.{Env, Call, Timeout, Queue, Err, TcpParams, PortCmd, CmdType, Callbacks}
use ip.Sys.{
  Sys, Port, listen, syn_sent, fin_wait_1, port_zero, malloc, fault, queue_send, sem_create,
  record_call,
}
use ip.Tcp.Ports.{port_at, update_port, find_port, allocate_port}
use ip.Tcp.Send.{tcp_enqueue_answer, tcp_enqueue_reliable}

-- The answer to a queued segment: the queue owns the copy, or it is freed here.
abbrev pub input_tcp_answer : ℕ → Bool → State Sys Err
input_tcp_answer addr true = return Err.esp_ok
input_tcp_answer addr false = do record_call (Call.free addr); return Err.esp_err_no_mem

-- `input_tcp`, called by the IPv4 layer with `len` bytes at `buffer`.
unfoldable pub input_tcp : Env → List ℕ → ℕ → Ipv4Addr → State Sys Err
input_tcp env buffer len src_ipv4_addr = do
  copied_buffer ← malloc env len
  elim copied_buffer [
    | none ↦ return Err.esp_err_no_mem
    | some addr ↦ if ltb (length buffer) len then (do fault; return Err.esp_fail) else (do
      sent ← queue_send env Queue.tcp_input_queue (λ b.
          Call.send_tcp_input_queue
            (record {
              buffer = record { addr = addr; bytes = take len buffer };
              length = len;
              src_ipv4_addr = src_ipv4_addr;
            })
            Timeout.no_wait b)
      input_tcp_answer addr sent)
  ]

abbrev pub send_cmd : Env → PortCmd → State Sys Err
send_cmd env cmd = do
  sent ← queue_send env Queue.port_cmd_queue (λ b. Call.send_port_cmd_queue cmd Timeout.no_wait b)
  return (tcp_enqueue_answer sent)

unfoldable pub tcp_connect_port : Env → ℕ → ℕ → Ipv4Addr → Callbacks → State Sys Err
tcp_connect_port env src_port_num dst_port_num dst_ipv4_addr callbacks = send_cmd env (record {
  type = CmdType.cmd_create_and_connect;
  self_port_num = src_port_num;
  other_port_num = dst_port_num;
  other_ipv4_addr = dst_ipv4_addr;
  callbacks = callbacks;
})

unfoldable pub tcp_listen_port : Env → ℕ → Callbacks → State Sys Err
tcp_listen_port env src_port_num callbacks = send_cmd env (record {
  type = CmdType.cmd_create_and_listen;
  self_port_num = src_port_num;
  other_port_num = 0;
  other_ipv4_addr = ip_zero;
  callbacks = callbacks;
})

unfoldable pub tcp_close_port : Env → ℕ → ℕ → Ipv4Addr → State Sys Err
tcp_close_port env src_port_num dst_port_num dst_ipv4_addr = send_cmd env (record {
  type = CmdType.cmd_close;
  self_port_num = src_port_num;
  other_port_num = dst_port_num;
  other_ipv4_addr = dst_ipv4_addr;
  callbacks = record { on_receive = none; on_connect = none; on_disconnect = none };
})

-- `tcp_set_self_net_context`, on the symbol that the four protocols share.
unfoldable pub tcp_set_self_net_context : NetContext → State Sys (Unit {0})
tcp_set_self_net_context net s = (tt, record s { self_net = net })

-- The port that `tcp_create_port_internal` fills in.
abbrev pub new_port : ℕ → Callbacks → ℕ → Port
new_port src_port_num callbacks slots = record port_zero {
  self_port_num = src_port_num;
  self_window = 1500;
  unacked_slots = slots;
  callbacks = callbacks;
}

unfoldable pub tcp_create_port_internal : Env → ℕ → Callbacks → State Sys (Option ℕ)
tcp_create_port_internal env src_port_num callbacks = do
  slots ← sem_create env
  elim slots [ none ↦ return none | some h ↦ allocate_port (new_port src_port_num callbacks h) ]

-- A segment without data that the task sends for itself.
abbrev pub request : Ipv4Addr → Port → ℕ → TcpParams
request dst p control = record {
  dst_ipv4_addr = dst;
  src_port = p.self_port_num;
  dst_port = p.other_port_num;
  seq_num = p.seq_num;
  control = control;
  is_retransmission = false;
  payload = none;
  data_len = 0;
}

-- `SYN` and `FIN`.
abbrev pub syn : ℕ
syn = 2

abbrev pub fin : ℕ
fin = 1

unfoldable pub tcp_connect_port_internal : Env → ℕ → ℕ → Ipv4Addr → Callbacks → State Sys Err
tcp_connect_port_internal env src_port_num dst_port_num dst_ipv4_addr callbacks = do
  port ← tcp_create_port_internal env src_port_num callbacks
  elim port [
    | none ↦ return Err.esp_fail
    | some i ↦ do
      update_port i
          (λ p. record p { other_ipv4_addr = dst_ipv4_addr; other_port_num = dst_port_num })
      s ← get
      update_port i (λ p. record p { state = syn_sent })
      tcp_enqueue_reliable env (λ ps. ps) (request dst_ipv4_addr (port_at s.ports i) syn)
          Timeout.max_delay
  ]

unfoldable pub tcp_listen_port_internal : Env → ℕ → Callbacks → State Sys Err
tcp_listen_port_internal env src_port_num callbacks = do
  port ← tcp_create_port_internal env src_port_num callbacks
  elim port [
    | none ↦ return Err.esp_fail
    | some i ↦ do
      update_port i (λ p. record p { state = listen; other_ipv4_addr = ip_zero })
      return Err.esp_ok
  ]

unfoldable pub tcp_close_port_internal : Env → ℕ → ℕ → Ipv4Addr → State Sys Err
tcp_close_port_internal env src_port_num dst_port_num dst_ipv4_addr = do
  s ← get
  elim (find_port src_port_num dst_port_num dst_ipv4_addr s.ports) [
    | none ↦ return Err.esp_err_invalid_arg
    | some i ↦ do
      update_port i (λ p. record p { state = fin_wait_1 })
      tcp_enqueue_reliable env (λ ps. ps) (request dst_ipv4_addr (port_at s.ports i) fin)
          Timeout.max_delay
  ]

-- The `switch` of the task on a command.
unfoldable pub run_cmd : Env → PortCmd → State Sys Err
run_cmd env cmd = elim cmd.type [
  | CmdType.cmd_create_and_connect ↦
      tcp_connect_port_internal env cmd.self_port_num cmd.other_port_num cmd.other_ipv4_addr
        cmd.callbacks
  | CmdType.cmd_create_and_listen ↦ tcp_listen_port_internal env cmd.self_port_num cmd.callbacks
  | CmdType.cmd_close ↦
      tcp_close_port_internal env cmd.self_port_num cmd.other_port_num cmd.other_ipv4_addr
]
