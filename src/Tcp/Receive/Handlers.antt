-- ===== src/Tcp/Receive/Handlers.antt =====
-- tcp.c: each case of the `switch` of `input_tcp_internal` moves its port along the diagram.
use ip.Base.{
  ℕ, ◌+◌, ◌<◌, ◌≡◌, refl, ap, ◌∙◌, arith, List, length, set, Bool-cases, inl, inr, ltb, ◌&&◌, skip,
  ◌∷◌, length-set, u32, ◌==◌, if◌then◌else◌,
}
use ip.Os.{Env, Call, Timeout}
use ip.Sys.{
  Sys, Port, TcpState, listen, syn_sent, syn_received, established, fin_wait_1, fin_wait_2,
  last_ack, time_wait, flag_ack, flag_syn, flag_fin,
}
use ip.Tcp.Ports.{port_at, tcp_reset_port}
use ip.Tcp.Ports.Reset.{reset_port, tcp_reset_port_lem}
use ip.Tcp.Ports.Touch.{Keeps-same, Keeps-set}
use ip.Tcp.Send.{tcp_enqueue_reliable}
use ip.Tcp.Input.{Input, header, control_of, data_length}
use ip.Tcp.Acks.{alone, control_segment, fin_ack}
use ip.Tcp.States.{
  call_connected, call_disconnected, on_listen, on_syn_sent, on_syn_received, on_established,
  on_last_ack, enter_time_wait, on_fin_wait_1, on_fin_wait_2, on_state, call_received,
}
use ip.Tcp.Receive.Keep.{ports-tcp_enqueue_reliable}
use ip.Tcp.Receive.Moves.{
  Move, syn_arrives, syn_ack_arrives, syn_acked, fin_arrives, both_fins, own_fin_acked,
  peer_fin_arrives, reset_arrives, Moves, Keeps-Moves, Moves-Keeps, Moves-same, Moves-set,
  Moves-after, Moves-to, with_port,
}

module _ (env : Env) (i : ℕ) (m : Input) (s : Sys) (lt : i < length s.ports) where
  on_listen-Moves : (port_at s.ports i).state ≡ listen → Moves i s (on_listen env i m s).1
  unfolding on_listen
  on_listen-Moves e = elim (Bool-cases (flag_syn (control_of m))) [
    | inl a ↦
        let q = record (port_at s.ports i) {
          state = syn_received;
          other_ipv4_addr = m.src_ipv4_addr;
          other_port_num = (header m).src_port;
          ack_num = u32 ((header m).seq_num + 1);
        } in
        rw a (Moves-set i s _ q lt (ports-tcp_enqueue_reliable env _ _ _) (rw e syn_arrives))
    | inr a ↦ rw a (Moves-same i s s refl)
  ]

  call_connected-ports : (p : Port) (t : Sys) → (call_connected p t).1.ports ≡ t.ports
  call_connected-ports p t = ground arith

  call_disconnected-ports : (p : Port) (t : Sys) → (call_disconnected p t).1.ports ≡ t.ports
  call_disconnected-ports p t = ground arith

  call_received-ports : (p : Port) (t : Sys) → (call_received p m t).1.ports ≡ t.ports
  call_received-ports p t = ground arith

  on_syn_sent-Moves : (port_at s.ports i).state ≡ syn_sent → Moves i s (on_syn_sent i m s).1
  unfolding on_syn_sent
  on_syn_sent-Moves e = elim (Bool-cases (flag_syn (control_of m) && flag_ack (control_of m))) [
    | inl a ↦
        let q = record (port_at s.ports i) { state = established } in
        let t = with_port i s q in
        rw a (
          Moves-after i s t (call_connected (port_at t.ports i) t).1
            (Moves-to i s q lt (rw e syn_ack_arrives)) (call_connected-ports (port_at t.ports i) t))
    | inr a ↦ rw a (Moves-same i s s refl)
  ]

  on_syn_received-Moves :
      (port_at s.ports i).state ≡ syn_received → Moves i s (on_syn_received i m s).1
  unfolding on_syn_received
  on_syn_received-Moves e =
      elim (Bool-cases
        (flag_ack (control_of m) && (header m).ack_num == (port_at s.ports i).seq_num)) [
          | inl a ↦
              let q = record (port_at s.ports i) { state = established } in
              let t = with_port i s q in
              rw a (
                Moves-after i s t (call_connected (port_at t.ports i) t).1
                  (Moves-to i s q lt (rw e syn_acked)) (call_connected-ports (port_at t.ports i) t))
          | inr a ↦ rw a (Moves-same i s s refl)
        ]

  -- The end of `case ESTABLISHED`: the data goes to the application.
  hand_over : Sys → Sys
  hand_over t = ((if ltb 0 (data_length m) then call_received (port_at t.ports i) m else skip) t).1

  hand_over-ports : (t : Sys) → (hand_over t).ports ≡ t.ports
  unfolding hand_over
  hand_over-ports t = ground (arith, call_received-ports (port_at t.ports i) t)

  enter_time_wait-Moves :
      Move (port_at s.ports i).state time_wait → Moves i s (enter_time_wait env i s).1
  unfolding enter_time_wait
  enter_time_wait-Moves mv =
      let q = record (port_at s.ports i) { state = time_wait } in
      let t = with_port i s q in
      let now = u32 (env.ticks_now s.log) in
      let r = record (port_at t.ports i) { entered_time_wait_at = now } in
      let u = record t { ports = set t.ports i r; log = Call.tick_count now ∷ s.log } in
      let room : i < length t.ports = rw (length-set s.ports i q) lt in
      Moves-after i s u (call_disconnected (port_at u.ports i) u).1
        (Moves-Keeps (Moves-to i s q lt mv) (Keeps-set i t u r room refl refl))
        (call_disconnected-ports (port_at u.ports i) u)

  pub reset-Moves : Moves i s (tcp_reset_port env i s).1
  reset-Moves =
      Moves-set i s (tcp_reset_port env i s).1 (reset_port (port_at s.ports i)) lt
        (ap (λ r. r.1.ports) (tcp_reset_port_lem env i s lt)) reset_arrives

  on_last_ack-Moves : (port_at s.ports i).state ≡ last_ack → Moves i s (on_last_ack env i m s).1
  unfolding on_last_ack
  on_last_ack-Moves e =
      elim (Bool-cases
        (flag_ack (control_of m) && (header m).ack_num == (port_at s.ports i).seq_num)) [
          | inl a ↦
              let t = (tcp_reset_port env i s).1 in
              rw a (
                Moves-after i s t (call_disconnected (port_at t.ports i) t).1 reset-Moves
                  (call_disconnected-ports (port_at t.ports i) t))
          | inr a ↦ rw a (Moves-same i s s refl)
        ]

  on_fin_wait_1-Moves :
      (port_at s.ports i).state ≡ fin_wait_1 → Moves i s (on_fin_wait_1 env i m s).1
  unfolding on_fin_wait_1
  on_fin_wait_1-Moves e = elim (Bool-cases (flag_fin (control_of m))) [
    | inl a ↦ rw a (enter_time_wait-Moves (rw e both_fins))
    | inr a ↦ elim (Bool-cases (flag_ack (control_of m))) [
      | inl b ↦
          rw (a, b)
            (Moves-set i s _ (record (port_at s.ports i) { state = fin_wait_2 }) lt refl
              (rw e own_fin_acked))
      | inr b ↦ rw (a, b) (Moves-same i s s refl)
    ]
  ]

  on_fin_wait_2-Moves :
      (port_at s.ports i).state ≡ fin_wait_2 → Moves i s (on_fin_wait_2 env i m s).1
  unfolding on_fin_wait_2
  on_fin_wait_2-Moves e = elim (Bool-cases (flag_fin (control_of m))) [
    | inl a ↦ rw a (enter_time_wait-Moves (rw e peer_fin_arrives))
    | inr a ↦ rw a (Moves-same i s s refl)
  ]

  on_established-Moves :
      (port_at s.ports i).state ≡ established → Moves i s (on_established env i m s).1
  unfolding on_established hand_over
  on_established-Moves e = elim (Bool-cases (flag_fin (control_of m))) [
    | inl a ↦
        let reply = control_segment m (port_at s.ports i) fin_ack in
        let t = (tcp_enqueue_reliable env alone reply Timeout.max_delay s).1 in
        let same : t.ports ≡ s.ports = ports-tcp_enqueue_reliable env reply Timeout.max_delay s in
        let q = record (port_at t.ports i) { state = last_ack } in
        let was : (port_at t.ports i).state ≡ established =
          ap (λ (ps : List Port). (port_at ps i).state) same ∙ e in
        let room : i < length t.ports = rw same lt in
        rw a (
          Moves-after i s (with_port i t q) (hand_over (with_port i t q))
            (Keeps-Moves (Keeps-same i s t same) (Moves-to i t q room (rw was fin_arrives)))
            (hand_over-ports (with_port i t q)))
    | inr a ↦ rw a (Moves-after i s s (hand_over s) (Moves-same i s s refl) (hand_over-ports s))
  ]

  pub on_state-Moves :
      (t : TcpState) → (port_at s.ports i).state ≡ t → Moves i s (on_state t env i m s).1
  unfolding on_state
  on_state-Moves listen e = on_listen-Moves e
  on_state-Moves syn_sent e = on_syn_sent-Moves e
  on_state-Moves syn_received e = on_syn_received-Moves e
  on_state-Moves established e = on_established-Moves e
  on_state-Moves last_ack e = on_last_ack-Moves e
  on_state-Moves fin_wait_1 e = on_fin_wait_1-Moves e
  on_state-Moves fin_wait_2 e = on_fin_wait_2-Moves e
  on_state-Moves _ e = Moves-same i s s refl
