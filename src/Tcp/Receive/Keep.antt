-- ===== src/Tcp/Receive/Keep.antt =====
-- tcp.c: the parts of `input_tcp_internal` that leave the state of the port alone: sending,
-- acknowledgements both ways.
use ip.Base.{
  ℕ, ◌+◌, ◌<◌, ◌≡◌, refl, arith, ◌∷◌, length, Option-cases, Bool-cases, inl, inr, leb, ltb, ◌&&◌,
  u32, set,
}
use ip.Os.{Env, Call, Timeout, TcpParams}
use ip.Sys.{Sys, flag_ack}
use ip.Tcp.Ports.{port_at, find_port}
use ip.Tcp.Ports.Touch.{Keeps, Keeps-same, Keeps-set}
use ip.Tcp.Send.{tcp_enqueue, enqueue_taken, tcp_enqueue_reliable}
use ip.Tcp.Input.{Input, header, control_of, sequence_increment}
use ip.Tcp.Acks.{alone, acknowledges, handle_ack, release_acked, send_ack}
use ip.Tcp.Receive.Slots.{ack_slots_lem, acked_slots}

-- In the TCP task a send leaves the ports alone.
ports-tcp_enqueue :
    (env : Env) (p : TcpParams) (w : Timeout) (s : Sys) → (tcp_enqueue env p w s).1.ports ≡ s.ports
unfolding tcp_enqueue
ports-tcp_enqueue env p w s = refl

ports-enqueue_taken :
    (env : Env) (p : TcpParams) (i : ℕ) (s : Sys) → (enqueue_taken env p i s).1.ports ≡ s.ports
unfolding enqueue_taken
ports-enqueue_taken env p i s = ground arith

pub ports-tcp_enqueue_reliable :
    (env : Env) (p : TcpParams) (w : Timeout) (s : Sys)
    → (tcp_enqueue_reliable env alone p w s).1.ports ≡ s.ports
unfolding tcp_enqueue_reliable
ports-tcp_enqueue_reliable env p w s =
    elim (Option-cases (find_port p.src_port p.dst_port p.dst_ipv4_addr s.ports)) [
      | inl missing ↦ ground arith
      | inr (i, found) ↦
          let h = (port_at s.ports i).unacked_slots in
          ground (
            arith,
            ports-enqueue_taken env p i
                (record s { log = Call.sem_take h w (env.sem_taken s.log h) ∷ s.log }),
          )
    ]

ports-release_acked :
    (i ack_num : ℕ) (s : Sys)
    → let p = port_at s.ports i in
      (release_acked i ack_num s).1.ports
      ≡ set s.ports i (record p { unacked = acked_slots ack_num p.unacked })
unfolding release_acked
ports-release_acked i ack_num s =
    rw (ack_slots_lem ack_num (port_at s.ports i).unacked_slots (port_at s.ports i).unacked s)

release_acked-Keeps :
    (i ack_num : ℕ) (s : Sys) → i < length s.ports → Keeps i s (release_acked i ack_num s).1
release_acked-Keeps i ack_num s lt =
    let p = port_at s.ports i in
    Keeps-set i s (release_acked i ack_num s).1
      (record p { unacked = acked_slots ack_num p.unacked }) lt (ports-release_acked i ack_num s)
      refl

pub handle_ack-Keeps :
    (i : ℕ) (m : Input) (s : Sys) → i < length s.ports → Keeps i s (handle_ack i m s).1
unfolding handle_ack
handle_ack-Keeps i m s lt = elim (Bool-cases (flag_ack (control_of m))) [
  | inl a ↦ elim (Bool-cases (leb (header m).ack_num (port_at s.ports i).seq_num)) [
    | inl b ↦ rw (a, b) (release_acked-Keeps i (header m).ack_num s lt)
    | inr b ↦ rw (a, b) (Keeps-same i s s refl)
  ]
  | inr a ↦ rw a (Keeps-same i s s refl)
]

pub send_ack-Keeps :
    (env : Env) (i : ℕ) (m : Input) (s : Sys)
    → i < length s.ports
    → Keeps i s (send_ack env i m s).1
unfolding send_ack
send_ack-Keeps env i m s lt =
    elim (Bool-cases (ltb 0 (sequence_increment m) && acknowledges (port_at s.ports i).state)) [
      | inl a ↦
          let p = port_at s.ports i in
          let q = record p { ack_num = u32 ((header m).seq_num + sequence_increment m) } in
          rw a (Keeps-set i s _ q lt (ports-tcp_enqueue env _ _ _) refl)
      | inr a ↦ rw a (Keeps-same i s s refl)
    ]
