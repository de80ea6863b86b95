-- ===== src/Tcp/Task/Turns.antt =====
-- tcp.c: what one round of `tcp_task` may do to a port.
use ip.Base.{ℕ, ◌<◌, ◌≡◌, ap, List, length, set}
use native.Mathlib.Decide.{ℕ_discrete}
use ip.Os.{TcpInputEvent, CmdType, PortCmd}
use ip.Sys.{Sys, Port, closed, listen, syn_sent, fin_wait_1, time_wait}
use ip.Tcp.Ports.{port_at}
use ip.Tcp.Ports.Touch.{TouchesOnly, TouchesOnly-trans, TouchesOnly-set, port_set}
use ip.Tcp.Ports.Find.{IsConnection}
use ip.Tcp.Receive.Moves.{Move}
use ip.Tcp.Task.{TaskEvent, to_input, to_run, timed_out}

-- What a round may do to a port, by what it receives: whatever that is, leave the port in its
-- state; on a segment, move it along the diagram of received segments; on a command, open the
-- connection of the command in a free entry, or begin to close that connection; on a timeout, give
-- up a port in TIME_WAIT.
pub data Turn (p q : Port) : TaskEvent → Type 0 where
  rests : {e : TaskEvent} → q.state ≡ p.state → Turn p q e
  receives : {m : TcpInputEvent} → Move p.state q.state → Turn p q (to_input m)
  listens :
      {c : PortCmd}
      → c.type ≡ CmdType.cmd_create_and_listen
      → p.self_port_num ≡ 0
      → q.state ≡ listen
      → q.self_port_num ≡ c.self_port_num
      → Turn p q (to_run c)
  connects :
      {c : PortCmd}
      → c.type ≡ CmdType.cmd_create_and_connect
      → p.self_port_num ≡ 0
      → q.state ≡ syn_sent
      → IsConnection c.self_port_num c.other_port_num c.other_ipv4_addr q
      → Turn p q (to_run c)
  closes :
      {c : PortCmd}
      → c.type ≡ CmdType.cmd_close
      → IsConnection c.self_port_num c.other_port_num c.other_ipv4_addr p
      → q.state ≡ fin_wait_1
      → Turn p q (to_run c)
  expires : p.state ≡ time_wait → q.state ≡ closed → Turn p q timed_out

abbrev pub Turns : TaskEvent → Sys → Sys → Type 0
Turns e s t = (j : ℕ) → Turn (port_at s.ports j) (port_at t.ports j) e

module _ {e : TaskEvent} where
  pub Turns-same : (s t : Sys) → t.ports ≡ s.ports → Turns e s t
  Turns-same s t same j = rests (ap (λ (ps : List Port). (port_at ps j).state) same)

  -- A step that touches port `i` only.
  pub Turns-one :
      (i : ℕ) (s t : Sys)
      → TouchesOnly i s t
      → Turn (port_at s.ports i) (port_at t.ports i) e
      → Turns e s t
  Turns-one i s t f turn j = elim (ℕ_discrete j i) [
    | yes here ↦ rw here turn
    | no ne ↦ rests (ap (λ (q : Port). q.state) (f.others j ne))
  ]

  pub Turns-set :
      (i : ℕ) (s t : Sys) (q : Port)
      → i < length s.ports
      → t.ports ≡ set s.ports i q
      → Turn (port_at s.ports i) q e
      → Turns e s t
  Turns-set i s t q lt wrote turn =
      Turns-one i s t (TouchesOnly-set i s t q wrote) (rw (port_set i s t q lt wrote) turn)

  -- The last of the steps that touch port `i` only writes it.
  pub Turns-then :
      (i : ℕ) (s t u : Sys) (q : Port)
      → TouchesOnly i s t
      → i < length s.ports
      → u.ports ≡ set t.ports i q
      → Turn (port_at s.ports i) q e
      → Turns e s u
  Turns-then i s t u q f lt wrote turn =
      Turns-one i s u (TouchesOnly-trans f (TouchesOnly-set i t u q wrote))
        (rw (port_set i t u q (rw f.size lt) wrote) turn)
