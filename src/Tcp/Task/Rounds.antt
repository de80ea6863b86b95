-- ===== src/Tcp/Task/Rounds.antt =====
-- tcp.c: rounds of `tcp_task`, with whatever the other tasks do between them.
use ip.Base.{ℕ, ◌≡◌, ◌≢◌, refl, sym, ap, ◌∙◌, List, [], inl, inr, u32, ◌∷◌, lt-of-get_elem?}
use ip.Os.{Env, Call, TcpParams}
use ip.Sys.{Sys, Port, TcpState, close_wait}
use ip.Tcp.Ports.{port_at}
use ip.Tcp.Send.{tcp_send_internal}
use ip.Tcp.Receive.Moves.{
  Move, stay, syn_arrives, syn_ack_arrives, syn_acked, fin_arrives, fin_acked, both_fins,
  own_fin_acked, peer_fin_arrives, reset_arrives,
}
use ip.Tcp.Task.{TaskEvent, received_nothing, to_send, to_input, to_run, timed_out, tcp_task_round}
use ip.Tcp.Task.Turns.{
  Turn, receives, listens, connects, closes, expires, Turns, Turns-same, Turns-set, rests,
}
use ip.Tcp.Task.Commands.{run_cmd-Turns}
use ip.Tcp.Task.Timeouts.{scan_ports-Turns}
use ip.Tcp.Receive.Diagram.{input_tcp_internal-Move}
use ip.Tcp.Send.Numbering.{tcp_send_internal-Numbered}

tcp_send-Turns :
    (env : Env) (p : TcpParams) (s : Sys) → Turns (to_send p) s (tcp_send_internal env p s).1
tcp_send-Turns env p s = elim (tcp_send_internal-Numbered env p s) [
  | inl same ↦ Turns-same s (tcp_send_internal env p s).1 same
  | inr (i, at, f) ↦
      Turns-set i s (tcp_send_internal env p s).1 f.port (lt-of-get_elem? s.ports i at.item at.at)
        f.ports (rests (ap (λ q. q.state) f.remembers.rest))
]

-- Whatever a round of the TCP task receives, it moves each port by one turn at most.
pub tcp_task_round-Turns :
    (env : Env) (e : TaskEvent) (s : Sys) → Turns e s (tcp_task_round env e s).1
unfolding tcp_task_round
tcp_task_round-Turns env received_nothing s j = Turns-same s s refl j
tcp_task_round-Turns env (to_send p) s j = tcp_send-Turns env p s j
tcp_task_round-Turns env (to_input e) s j = receives (
    input_tcp_internal-Move env
      (record { buffer = e.buffer.bytes; length = e.length; src_ipv4_addr = e.src_ipv4_addr }) s j)
tcp_task_round-Turns env (to_run c) s j = run_cmd-Turns env c s j
tcp_task_round-Turns env timed_out s j =
    let now = u32 (env.ticks_now s.log) in
    scan_ports-Turns env now (record s { log = Call.tick_count now ∷ s.log }) j

-- What the system may do: rounds of the TCP task on these events, the newest first, and between
-- them whatever the other tasks do, which read the port table and do not write it.
pub data Runs (env : Env) (s : Sys) : List TaskEvent → Sys → Type 0 where
  begin : Runs env s [] s
  round :
      {es : List TaskEvent} {t : Sys} (e : TaskEvent)
      → Runs env s es t
      → Runs env s (e ∷ es) (tcp_task_round env e t).1
  others : {es : List TaskEvent} {t u : Sys} → u.ports ≡ t.ports → Runs env s es t → Runs env s es u

-- How a port fares in a run: from each of its states to the next it makes the turn that the event
-- of the round allows, or stays as it is where the other tasks act.
abbrev pub Lives :
    {env : Env} {s : Sys} {es : List TaskEvent} {t : Sys} → Runs env s es t → ℕ → Type 0
Lives begin j = Unit
Lives {env} (round {es} {t} e r) j =
    Turn (port_at t.ports j) (port_at (tcp_task_round env e t).1.ports j) e × Lives r j
Lives (others {es} {t} {u} same r) j = (port_at u.ports j ≡ port_at t.ports j) × Lives r j

-- In any run, with whatever the other tasks do to anything but the ports in between, each port
-- makes exactly one turn in each round of the TCP task, from the port as it then is, and one that
-- the event of the round allows: only a segment moves it along the diagram of received segments,
-- only a command opens or closes it, and that of its own numbers and address, only a timeout gives
-- it up, from TIME_WAIT, and in all other cases it stays in its state.
pub Runs-Lives :
    {env : Env} {s : Sys} {es : List TaskEvent} {t : Sys} (run : Runs env s es t) (j : ℕ)
    → Lives run j
Runs-Lives begin j = tt
Runs-Lives {env} (round {es} {t} e r) j = (tcp_task_round-Turns env e t j, Runs-Lives r j)
Runs-Lives (others {es} {t} {u} same r) j =
    (ap (λ (ps : List Port). port_at ps j) same, Runs-Lives r j)

Move-close_wait : {a b : TcpState} → Move a b → a ≢ close_wait → b ≢ close_wait
Move-close_wait stay ne e = ne e
Move-close_wait syn_arrives ne e = cc
Move-close_wait syn_ack_arrives ne e = cc
Move-close_wait syn_acked ne e = cc
Move-close_wait fin_arrives ne e = cc
Move-close_wait fin_acked ne e = cc
Move-close_wait both_fins ne e = cc
Move-close_wait own_fin_acked ne e = cc
Move-close_wait peer_fin_arrives ne e = cc
Move-close_wait reset_arrives ne e = cc

Turn-close_wait :
    {p q : Port} {e : TaskEvent} → Turn p q e → p.state ≢ close_wait → q.state ≢ close_wait
Turn-close_wait (rests same) ne h = ne (sym same ∙ h)
Turn-close_wait (receives m) ne h = Move-close_wait m ne h
Turn-close_wait (listens o f e n) ne h = cc
Turn-close_wait (connects o f e c) ne h = cc
Turn-close_wait (closes o c e) ne h = cc
Turn-close_wait (expires w e) ne h = cc

-- No run of the TCP task leads a port into CLOSE_WAIT, a state that the code names and never sets.
pub Runs-close_wait :
    {env : Env} {s : Sys} {es : List TaskEvent} {t : Sys}
    → Runs env s es t
    → (j : ℕ) → (port_at s.ports j).state ≢ close_wait
    → (port_at t.ports j).state ≢ close_wait
Runs-close_wait begin j ne = ne
Runs-close_wait {env} (round {es} {t} e r) j ne =
    Turn-close_wait (tcp_task_round-Turns env e t j) (Runs-close_wait r j ne)
Runs-close_wait (others {es} {t} {u} same r) j ne =
    rw (ap (λ (ps : List Port). port_at ps j) same) (Runs-close_wait r j ne)
