-- ===== src/Tcp/Receive.antt =====
-- tcp.c: `input_tcp_internal`, which the TCP task runs on each received segment.
pub mod Slots
pub mod Keep
pub mod Moves
pub mod Handlers
pub mod Diagram
pub mod Data
pub mod Delivery
use ip.Base.{
  ℕ, ◌+◌, ◌-◌, ◌*◌, Bool, true, false, ◌&&◌, ◌||◌, ltb, leb, ◌==◌, if◌then◌else◌, List, [], ◌∷◌,
  Option, none, some, State, ◌>>=◌, ◌>>◌, return, get, skip, u16, u32, length, drop,
}
use ip.Utility.Types.{Ipv4Addr}
use ip.Os.{Buf, Env, Call, Timeout, TcpParams}
use ip.Sys.{
  Sys, Port, Unacked, TcpState, is_closed, listen, syn_sent, syn_received, established, fin_wait_1,
  close_wait, fin_wait_2, last_ack, time_wait, flag_fin, flag_syn, flag_rst, flag_ack, free_buf,
  fault, tick_count, sem_give, record_call,
}
use ip.Tcp.Ports.{port_at, update_port, find_port, find_listening_port, tcp_reset_port}
use ip.Tcp.Segment.{Header, tcp_header_size, read_header}
use ip.Tcp.Send.{tcp_enqueue, tcp_enqueue_reliable}
use ip.Tcp.Input.{
  Input, header, control_of, header_length, data_length, syn_or_fin, sequence_increment,
  select_port,
}
use ip.Tcp.Acks.{
  control_segment, alone, syn_ack, fin_ack, ack, is_acked, ack_slots, release_acked, handle_ack,
  acknowledges, send_ack,
}
use ip.Tcp.States.{
  call_connected, call_disconnected, call_received, on_listen, on_syn_sent, on_syn_received,
  on_established, on_last_ack, enter_time_wait, on_fin_wait_1, on_fin_wait_2, on_state,
}

-- The segment passes the tests: acknowledgements both ways, the window, and the state machine.
unfoldable pub accept_segment : Env → ℕ → Input → State Sys (Unit {0})
accept_segment env i m = do
  goes_on ← handle_ack i m
  if goes_on
      then (do
        send_ack env i m
        update_port i (λ p. record p { other_window = (header m).window })
        s ← get
        on_state (port_at s.ports i).state env i m)
      else skip

-- In these states the sequence number is not tested.
abbrev pub is_opening : TcpState → Bool
is_opening listen = true
is_opening syn_sent = true
is_opening _ = false

-- What happens to a segment on the port that it selects.
unfoldable pub input_on_port : Env → ℕ → Input → State Sys (Unit {0})
input_on_port env i m = do
  s ← get
  let p = port_at s.ports i
  if is_closed p.state
      then skip
      else (if flag_rst (control_of m)
          then tcp_reset_port env i
          else (if is_opening p.state || (header m).seq_num == p.ack_num
              then accept_segment env i m
              else skip))

-- `input_tcp_internal`. It reads the header before it knows that the segment holds one.
unfoldable pub input_tcp_internal : Env → Input → State Sys (Unit {0})
input_tcp_internal env m =
    if ltb (length m.buffer) tcp_header_size
    then fault
    else (if ltb (header_length m) tcp_header_size then skip else (do
      s ← get
      elim (select_port m s.ports) [ none ↦ skip | some i ↦ input_on_port env i m ]))
