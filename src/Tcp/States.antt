-- ===== src/Tcp/States.antt =====
-- tcp.c: the `switch` of `input_tcp_internal` on the state of the port, a function for each case.
use ip.Base.{
  ℕ, ◌+◌, ◌&&◌, ltb, ◌==◌, if◌then◌else◌, none, some, State, ◌>>=◌, ◌>>◌, get, skip, u32, drop,
}
use ip.Os.{Env, Call, Timeout}
use ip.Sys.{
  Sys, Port, TcpState, closed, listen, syn_sent, syn_received, established, fin_wait_1, close_wait,
  fin_wait_2, last_ack, time_wait, flag_fin, flag_syn, flag_ack, fault, tick_count, record_call,
}
use ip.Tcp.Ports.{port_at, update_port, tcp_reset_port}
use ip.Tcp.Send.{tcp_enqueue_reliable}
use ip.Tcp.Input.{Input, header, control_of, header_length, data_length}
use ip.Tcp.Acks.{control_segment, alone, syn_ack, fin_ack}

abbrev pub call_connected : Port → State Sys (Unit {0})
call_connected p = elim p.callbacks.on_connect [
  | none ↦ skip
  | some f ↦ record_call (Call.tcp_connected f p.other_port_num p.other_ipv4_addr)
]

-- `port->on_disconnect()`, which is not tested for NULL.
abbrev pub call_disconnected : Port → State Sys (Unit {0})
call_disconnected p = elim p.callbacks.on_disconnect [
  | none ↦ fault
  | some f ↦ record_call (Call.tcp_disconnected f)
]

abbrev pub call_received : Port → Input → State Sys (Unit {0})
call_received p m = elim p.callbacks.on_receive [
  | none ↦ skip
  | some f ↦ record_call (Call.tcp_received f (drop (header_length m) m.buffer) (data_length m))
]

-- `case LISTEN`.
unfoldable pub on_listen : Env → ℕ → Input → State Sys (Unit {0})
on_listen env i m =
    if flag_syn (control_of m)
    then (do
      update_port i (λ p. record p {
        state = syn_received;
        other_ipv4_addr = m.src_ipv4_addr;
        other_port_num = (header m).src_port;
        ack_num = u32 ((header m).seq_num + 1);
      })
      s ← get
      tcp_enqueue_reliable env alone (control_segment m (port_at s.ports i) syn_ack)
          Timeout.max_delay
      skip)
    else skip

-- `case SYN_SENT`.
unfoldable pub on_syn_sent : ℕ → Input → State Sys (Unit {0})
on_syn_sent i m =
    if flag_syn (control_of m) && flag_ack (control_of m)
    then (do
      update_port i (λ p. record p { state = established })
      s ← get
      call_connected (port_at s.ports i))
    else skip

-- `case SYN_RECEIVED`.
unfoldable pub on_syn_received : ℕ → Input → State Sys (Unit {0})
on_syn_received i m = do
  s ← get
  if flag_ack (control_of m) && (header m).ack_num == (port_at s.ports i).seq_num
      then (do
        update_port i (λ p. record p { state = established })
        t ← get
        call_connected (port_at t.ports i))
      else skip

-- `case ESTABLISHED`.
unfoldable pub on_established : Env → ℕ → Input → State Sys (Unit {0})
on_established env i m = do
  if flag_fin (control_of m)
      then (do
        s ← get
        tcp_enqueue_reliable env alone (control_segment m (port_at s.ports i) fin_ack)
            Timeout.max_delay
        update_port i (λ p. record p { state = last_ack }))
      else skip
  t ← get
  if ltb 0 (data_length m) then call_received (port_at t.ports i) m else skip

-- `case LAST_ACK`.
unfoldable pub on_last_ack : Env → ℕ → Input → State Sys (Unit {0})
on_last_ack env i m = do
  s ← get
  if flag_ack (control_of m) && (header m).ack_num == (port_at s.ports i).seq_num
      then (do tcp_reset_port env i; t ← get; call_disconnected (port_at t.ports i))
      else skip

-- The peer has sent its FIN: the entry into TIME_WAIT of both FIN_WAIT cases.
unfoldable pub enter_time_wait : Env → ℕ → State Sys (Unit {0})
enter_time_wait env i = do
  update_port i (λ p. record p { state = time_wait })
  now ← tick_count env
  update_port i (λ p. record p { entered_time_wait_at = now })
  t ← get
  call_disconnected (port_at t.ports i)

-- `case FIN_WAIT_1`.
unfoldable pub on_fin_wait_1 : Env → ℕ → Input → State Sys (Unit {0})
on_fin_wait_1 env i m =
    if flag_fin (control_of m)
    then enter_time_wait env i
    else (if flag_ack (control_of m)
        then update_port i (λ p. record p { state = fin_wait_2 })
        else skip)

-- `case FIN_WAIT_2`.
unfoldable pub on_fin_wait_2 : Env → ℕ → Input → State Sys (Unit {0})
on_fin_wait_2 env i m = if flag_fin (control_of m) then enter_time_wait env i else skip

-- The `switch` on the state.
unfoldable pub on_state : TcpState → Env → ℕ → Input → State Sys (Unit {0})
on_state listen env i m = on_listen env i m
on_state syn_sent env i m = on_syn_sent i m
on_state syn_received env i m = on_syn_received i m
on_state established env i m = on_established env i m
on_state last_ack env i m = on_last_ack env i m
on_state fin_wait_1 env i m = on_fin_wait_1 env i m
on_state fin_wait_2 env i m = on_fin_wait_2 env i m
on_state closed env i m = skip
on_state close_wait env i m = skip
on_state time_wait env i m = skip
