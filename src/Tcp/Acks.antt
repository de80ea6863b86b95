-- ===== src/Tcp/Acks.antt =====
-- tcp.c: the acknowledgements of `input_tcp_internal`: what a segment acknowledges, and the reply to it.
use ip.Base.{
  ℕ, ◌+◌, Bool, true, false, ◌&&◌, ltb, leb, if◌then◌else◌, List, [], ◌∷◌, none, State, ◌>>=◌, ◌>>◌,
  return, get, skip, u32,
}
use ip.Os.{Env, Timeout, TcpParams}
use ip.Sys.{Sys, Port, Unacked, TcpState, listen, last_ack, flag_syn, flag_ack, free_buf, sem_give}
use ip.Tcp.Ports.{port_at, update_port}
use ip.Tcp.Send.{tcp_enqueue}
use ip.Tcp.Input.{Input, header, control_of, sequence_increment}

-- A reply without data on a port.
abbrev pub control_segment : Input → Port → ℕ → TcpParams
control_segment m p control = record {
  dst_ipv4_addr = m.src_ipv4_addr;
  src_port = p.self_port_num;
  dst_port = p.other_port_num;
  seq_num = p.seq_num;
  control = control;
  is_retransmission = false;
  payload = none;
  data_len = 0;
}

-- In the TCP task nothing changes the ports while it waits.
abbrev pub alone : List Port → List Port
alone ports = ports

-- `SYN + ACK`, `FIN + ACK` and `ACK`.
abbrev pub syn_ack : ℕ
syn_ack = 18

abbrev pub fin_ack : ℕ
fin_ack = 17

abbrev pub ack : ℕ
ack = 16

-- Is the slot released by an acknowledgement of `ack_num`?
abbrev pub is_acked : ℕ → Unacked → Bool
is_acked ack_num u = u.in_use && leb u.seq_num ack_num

-- The loop over the slots of a port.
unfoldable pub ack_slots : ℕ → ℕ → List Unacked → State Sys (List Unacked)
ack_slots ack_num slots [] = return []
ack_slots ack_num slots (u ∷ us) = do
  if is_acked ack_num u then (do sem_give slots; free_buf u.payload) else skip
  rest ← ack_slots ack_num slots us
  return ((if is_acked ack_num u then record u { in_use = false; payload = none } else u) ∷ rest)

unfoldable pub release_acked : ℕ → ℕ → State Sys (Unit {0})
release_acked i ack_num = do
  s ← get
  let p = port_at s.ports i
  slots ← ack_slots ack_num p.unacked_slots p.unacked
  update_port i (λ q. record q { unacked = slots })

-- `true` unless the segment lacks the flag that all but the first must have.
unfoldable pub handle_ack : ℕ → Input → State Sys Bool
handle_ack i m = do
  s ← get
  if flag_ack (control_of m)
      then (if leb (header m).ack_num (port_at s.ports i).seq_num
          then (do release_acked i (header m).ack_num; return true)
          else return true)
      else return (flag_syn (control_of m))

abbrev pub acknowledges : TcpState → Bool
acknowledges last_ack = false
acknowledges listen = false
acknowledges _ = true

-- Acknowledging what the segment carries.
unfoldable pub send_ack : Env → ℕ → Input → State Sys (Unit {0})
send_ack env i m = do
  s ← get
  if ltb 0 (sequence_increment m) && acknowledges (port_at s.ports i).state
      then (do
        update_port i (λ p. record p { ack_num = u32 ((header m).seq_num + sequence_increment m) })
        t ← get
        tcp_enqueue env (control_segment m (port_at t.ports i) ack) Timeout.max_delay
        skip)
      else skip
