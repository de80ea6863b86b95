-- ===== src/Tcp/Task.antt =====
-- tcp.c: the scan for timeouts and one round of `tcp_task`.
pub mod Turns
pub mod Creation
pub mod Commands
pub mod Timeouts
pub mod Rounds
use ip.Base.{
  ℕ, zero, suc, ◌+◌, ◌-◌, true, false, ◌==◌, ltb, not, if◌then◌else◌, none, State, ◌>>=◌, ◌>>◌, get,
  skip, u32, set,
}
use ip.Os.{Env, Err, Call, TcpParams, TcpInputEvent, PortCmd}
use ip.Sys.{Sys, Port, Unacked, time_wait, tick_count, sem_give, is_ok, record_call, max_unacked}
use ip.Tcp.Ports.{port_at, unacked_at, update_port, max_ports, tcp_reset_port}
use ip.Tcp.Send.{tcp_send_internal}
use ip.Tcp.Receive.{input_tcp_internal}
use ip.Tcp.Commands.{run_cmd}

abbrev pub time_wait_duration : ℕ
time_wait_duration = 1000

abbrev pub retransmit_timeout : ℕ
retransmit_timeout = 100

-- `now - since` on the 32-bit tick counter.
abbrev pub elapsed : ℕ → ℕ → ℕ
elapsed now since = u32 (now + 4294967296 - since)

abbrev pub update_slot : ℕ → ℕ → (Unacked → Unacked) → State Sys (Unit {0})
update_slot i j f = update_port i (λ p. record p { unacked = set p.unacked j (f (unacked_at p j)) })

-- The segment in a slot, once more.
abbrev pub retransmission : Port → Unacked → TcpParams
retransmission p u = record {
  dst_ipv4_addr = p.other_ipv4_addr;
  src_port = p.self_port_num;
  dst_port = p.other_port_num;
  seq_num = u.seq_num;
  control = u.control;
  is_retransmission = true;
  payload = u.payload;
  data_len = u.data_len;
}

-- A slot whose segment could not be sent again is given up.
abbrev pub give_up_slot : ℕ → ℕ → Err → State Sys (Unit {0})
give_up_slot i j res = if is_ok res then skip else (do
  update_slot i j (λ u. record u { payload = none; in_use = false })
  s ← get
  sem_give (port_at s.ports i).unacked_slots)

-- The body of the loop over the slots.
unfoldable pub scan_slot : Env → ℕ → ℕ → ℕ → State Sys (Unit {0})
scan_slot env now i j = do
  s ← get
  let u = unacked_at (port_at s.ports i) j
  if not u.in_use
      then skip
      else (if ltb (elapsed now u.sent_at) retransmit_timeout then skip else (do
        update_slot i j (λ v. record v { sent_at = now })
        res ← tcp_send_internal env (retransmission (port_at s.ports i) u)
        give_up_slot i j res))

-- `for (i = j; i < MAX_UNACKED; i++)`, with `left` rounds to go.
unfoldable pub scan_slots : Env → ℕ → ℕ → ℕ → ℕ → State Sys (Unit {0})
scan_slots env now i zero j = skip
scan_slots env now i (suc left) j = do scan_slot env now i j; scan_slots env now i left (j + 1)

-- The body of the loop over the ports.
unfoldable pub scan_port : Env → ℕ → ℕ → State Sys (Unit {0})
scan_port env now i = do
  s ← get
  let p = port_at s.ports i
  if p.self_port_num == 0 then skip else (elim p.state [
    | time_wait ↦
        if ltb time_wait_duration (elapsed now p.entered_time_wait_at)
        then tcp_reset_port env i
        else scan_slots env now i max_unacked 0
    | _ ↦ scan_slots env now i max_unacked 0
  ])

unfoldable pub scan_ports : Env → ℕ → ℕ → ℕ → State Sys (Unit {0})
scan_ports env now zero i = skip
scan_ports env now (suc left) i = do scan_port env now i; scan_ports env now left (i + 1)

-- What `xQueueSelectFromSet` and `xQueueReceive` deliver to one round of the loop.
pub data TaskEvent : Type 0 where
  received_nothing : TaskEvent
  to_send : TcpParams → TaskEvent
  to_input : TcpInputEvent → TaskEvent
  to_run : PortCmd → TaskEvent
  timed_out : TaskEvent

-- One round of `tcp_task`.
unfoldable pub tcp_task_round : Env → TaskEvent → State Sys (Unit {0})
tcp_task_round env received_nothing = skip
tcp_task_round env (to_send p) = do tcp_send_internal env p; skip
tcp_task_round env (to_input e) = do
  input_tcp_internal env
      (record { buffer = e.buffer.bytes; length = e.length; src_ipv4_addr = e.src_ipv4_addr })
  record_call (Call.free e.buffer.addr)
tcp_task_round env (to_run c) = do run_cmd env c; skip
tcp_task_round env timed_out = do now ← tick_count env; scan_ports env now max_ports 0
