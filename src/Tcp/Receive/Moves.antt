-- ===== src/Tcp/Receive/Moves.antt =====
-- tcp.c: the transition diagram of a port, and how steps along it are joined.
use ip.Base.{ℕ, ◌<◌, ◌≡◌, refl, length, set}
use ip.Sys.{
  Sys, Port, TcpState, closed, listen, syn_sent, syn_received, established, fin_wait_1, fin_wait_2,
  last_ack, time_wait,
}
use ip.Tcp.Ports.{port_at}
use ip.Tcp.Ports.Touch.{
  TouchesOnly, Keeps, TouchesOnly-trans, Keeps-same, TouchesOnly-set, port_set,
}

-- The moves of a port on a received segment.
pub data Move : TcpState → TcpState → Type 0 where
  stay : {t : TcpState} → Move t t
  syn_arrives : Move listen syn_received
  syn_ack_arrives : Move syn_sent established
  syn_acked : Move syn_received established
  fin_arrives : Move established last_ack
  fin_acked : Move last_ack closed
  both_fins : Move fin_wait_1 time_wait
  own_fin_acked : Move fin_wait_1 fin_wait_2
  peer_fin_arrives : Move fin_wait_2 time_wait
  reset_arrives : {t : TcpState} → Move t closed

-- A step moves port `i` along the diagram and touches no other.
pub record Moves (i : ℕ) (s t : Sys) : Type 0 where
  pub touches : TouchesOnly i s t
  pub move : Move (port_at s.ports i).state (port_at t.ports i).state

pub Keeps-Moves : {i : ℕ} {s t u : Sys} → Keeps i s t → Moves i t u → Moves i s u
Keeps-Moves {i} {u} f g = record {
  touches = TouchesOnly-trans f.touches g.touches;
  move = rw (← f.state) g.move;
}

pub Moves-Keeps : {i : ℕ} {s t u : Sys} → Moves i s t → Keeps i t u → Moves i s u
Moves-Keeps f g = record {
  touches = TouchesOnly-trans f.touches g.touches;
  move = rw g.state f.move;
}

pub Moves-same : (i : ℕ) (s t : Sys) → t.ports ≡ s.ports → Moves i s t
Moves-same i s t e = record { touches = (Keeps-same i s t e).touches; move = rw e stay }

pub Moves-set :
    (i : ℕ) (s t : Sys) (p : Port)
    → i < length s.ports
    → t.ports ≡ set s.ports i p
    → Move (port_at s.ports i).state p.state
    → Moves i s t
Moves-set i s t p lt e m = record {
  touches = TouchesOnly-set i s t p e;
  move = rw (port_set i s t p lt e) m;
}

pub Moves-after : (i : ℕ) (s t u : Sys) → Moves i s t → u.ports ≡ t.ports → Moves i s u
Moves-after i s t u f e = Moves-Keeps f (Keeps-same i t u e)

-- Port `i` written anew.
abbrev pub with_port : ℕ → Sys → Port → Sys
with_port i s q = record s { ports = set s.ports i q }

pub Moves-to :
    (i : ℕ) (s : Sys) (q : Port)
    → i < length s.ports
    → Move (port_at s.ports i).state q.state
    → Moves i s (with_port i s q)
Moves-to i s q lt mv = Moves-set i s (with_port i s q) q lt refl mv
