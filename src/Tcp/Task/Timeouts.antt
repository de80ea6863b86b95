-- ===== src/Tcp/Task/Timeouts.antt =====
-- tcp.c: what the scan for timeouts does to the ports.
use ip.Base.{
  ℕ, zero, suc, ◌+◌, ◌<◌, ◌≡◌, ◌&&◌, refl, ap, ◌∙◌, arith, Bool, true, false, length, set, not, ltb,
  ◌==◌, none, Bool-cases, inl, inr, get_or_past_end,
}
use native.Mathlib.Decide.{ℕ_discrete, dec_lt}
use ip.Os.{Env, Err}
use ip.Sys.{Sys, Port, Unacked, TcpState, time_wait, is_ok, port_zero, max_unacked}
use ip.Tcp.Ports.{port_at, unacked_at, tcp_reset_port, max_ports}
use ip.Tcp.Ports.Reset.{reset_port, tcp_reset_port_lem}
use ip.Tcp.Ports.Touch.{
  TouchesOnly, Keeps, Keeps-trans, Keeps-same, Keeps-set, TouchesOnly-set, port_set,
}
use ip.Tcp.Send.{tcp_send_internal}
use ip.Tcp.Send.Numbering.{tcp_send_internal-Numbered}
use ip.Tcp.Task.{
  timed_out, retransmission, give_up_slot, update_slot, elapsed, retransmit_timeout,
  time_wait_duration, scan_slot, scan_slots, scan_port, scan_ports,
}
use ip.Tcp.Task.Turns.{Turn, rests, expires, Turns}

-- A retransmission leaves the ports alone.
ports-retransmission :
    (env : Env) (p : Port) (u : Unacked) (s : Sys)
    → (tcp_send_internal env (retransmission p u) s).1.ports ≡ s.ports
ports-retransmission env p u s = elim (tcp_send_internal-Numbered env (retransmission p u) s) [
  | inl same ↦ same
  | inr (i, at, f) ↦ absurd (ground (arith, f.is_new))
]

update_slot-Keeps :
    (i j : ℕ) (f : Unacked → Unacked) (s : Sys)
    → i < length s.ports
    → Keeps i s (update_slot i j f s).1
update_slot-Keeps i j f s lt =
    let p = port_at s.ports i in
    Keeps-set i s (update_slot i j f s).1
      (record p { unacked = set p.unacked j (f (unacked_at p j)) }) lt refl refl

give_up_slot-Keeps :
    (i j : ℕ) (res : Err) (s : Sys) → i < length s.ports → Keeps i s (give_up_slot i j res s).1
give_up_slot-Keeps i j res s lt = elim (Bool-cases (is_ok res)) [
  | inl fine ↦ rw fine (Keeps-same i s s refl)
  | inr failed ↦
      let t = (update_slot i j (λ u. record u { payload = none; in_use = false }) s).1 in
      rw failed (
        Keeps-trans (update_slot-Keeps i j (λ u. record u { payload = none; in_use = false }) s lt)
          (Keeps-same i t _ refl))
]

module _ (env : Env) (now i : ℕ) where
  slot_of : ℕ → Sys → Unacked
  slot_of j s = unacked_at (port_at s.ports i) j

  -- Is a segment waiting in the slot, and for long enough?
  overdue : ℕ → Sys → Bool
  overdue j s =
      (slot_of j s).in_use && not (ltb (elapsed now (slot_of j s).sent_at) retransmit_timeout)

  abbrev stamped : ℕ → Sys → Sys
  stamped j s = (update_slot i j (λ u. record u { sent_at = now }) s).1

  resent : ℕ → Sys → Err × Sys
  resent j s =
      tcp_send_internal env (retransmission (port_at s.ports i) (slot_of j s)) (stamped j s)

  scan_slot-rest : (j : ℕ) (s : Sys) → overdue j s ≡ false → (scan_slot env now i j s).1 ≡ s
  unfolding scan_slot overdue slot_of
  scan_slot-rest j s e = ground (arith, e)

  scan_slot-overdue :
      (j : ℕ) (s : Sys)
      → overdue j s ≡ true
      → (scan_slot env now i j s).1 ≡ (give_up_slot i j (resent j s).0 (resent j s).1).1
  unfolding scan_slot overdue slot_of resent
  scan_slot-overdue j s e = ground (arith, e)

  scan_slot-Keeps : (j : ℕ) (s : Sys) → i < length s.ports → Keeps i s (scan_slot env now i j s).1
  unfolding resent
  scan_slot-Keeps j s lt = elim (Bool-cases (overdue j s)) [
    | inr e ↦ rw (scan_slot-rest j s e) (Keeps-same i s s refl)
    | inl e ↦
        let f : Keeps i s (stamped j s) =
          update_slot-Keeps i j (λ u. record u { sent_at = now }) s lt in
        let g : Keeps i (stamped j s) (resent j s).1 =
          Keeps-same i (stamped j s) (resent j s).1
            (ports-retransmission env (port_at s.ports i) (slot_of j s) (stamped j s)) in
        let h = Keeps-trans f g in
        rw (scan_slot-overdue j s e) (
          Keeps-trans h
            (give_up_slot-Keeps i j (resent j s).0 (resent j s).1 (rw h.touches.size lt)))
  ]

  scan_slots-Keeps :
      (left j : ℕ) (s : Sys) → i < length s.ports → Keeps i s (scan_slots env now i left j s).1
  unfolding scan_slots
  scan_slots-Keeps zero j s lt = Keeps-same i s s refl
  scan_slots-Keeps (suc left) j s lt =
      let t = (scan_slot env now i j s).1 in
      let f : Keeps i s t = scan_slot-Keeps j s lt in
      Keeps-trans f (scan_slots-Keeps left (j + 1) t (rw f.touches.size lt))

  abbrev waited_out : Port → Bool
  waited_out p = ltb time_wait_duration (elapsed now p.entered_time_wait_at)

  is_time_wait : TcpState → Bool
  is_time_wait time_wait = true
  is_time_wait _ = false

  is_time_wait→eq : (t : TcpState) → is_time_wait t ≡ true → t ≡ time_wait
  unfolding is_time_wait
  is_time_wait→eq t e = ground arith

  gives_up : Port → Bool
  gives_up p = is_time_wait p.state && waited_out p

  scan_port-free :
      (s : Sys) → ((port_at s.ports i).self_port_num == 0) ≡ true → (scan_port env now i s).1 ≡ s
  unfolding scan_port
  scan_port-free s e = ground (arith, e)

  scan_port-expired :
      (s : Sys)
      → ((port_at s.ports i).self_port_num == 0) ≡ false
      → gives_up (port_at s.ports i) ≡ true
      → scan_port env now i s ≡ tcp_reset_port env i s
  unfolding scan_port gives_up is_time_wait
  scan_port-expired s e f = ground (arith, e, f)

  scan_port-slots :
      (s : Sys)
      → ((port_at s.ports i).self_port_num == 0) ≡ false
      → gives_up (port_at s.ports i) ≡ false
      → scan_port env now i s ≡ scan_slots env now i max_unacked 0 s
  unfolding scan_port gives_up is_time_wait
  scan_port-slots s e f = ground (arith, e, f)

  in_table : (s : Sys) → ((port_at s.ports i).self_port_num == 0) ≡ false → i < length s.ports
  in_table s e = elim (dec_lt i (length s.ports)) [
    | yes lt ↦ lt
    | no ge ↦
        let outside : port_at s.ports i ≡ port_zero =
          get_or_past_end s.ports i port_zero (omega arith) in
        absurd (ground (arith, e, ap (λ (p : Port). p.self_port_num) outside))
  ]

  pub scan_port-Turn :
      (s : Sys)
      → TouchesOnly i s (scan_port env now i s).1
        × Turn (port_at s.ports i) (port_at (scan_port env now i s).1.ports i) timed_out
  unfolding gives_up
  scan_port-Turn s = elim (Bool-cases ((port_at s.ports i).self_port_num == 0)) [
    | inl free ↦ rw (scan_port-free s free) ((Keeps-same i s s refl).touches, rests refl)
    | inr used ↦ elim (Bool-cases (gives_up (port_at s.ports i))) [
      | inl done ↦
          let q = reset_port (port_at s.ports i) in
          let t = (tcp_reset_port env i s).1 in
          let e : t.ports ≡ set s.ports i q =
            ap (λ r. r.1.ports) (tcp_reset_port_lem env i s (in_table s used)) in
          let was = is_time_wait→eq (port_at s.ports i).state (ground (arith, done)) in
          rw (scan_port-expired s used done) (
            TouchesOnly-set i s t q e,
            rw (port_set i s t q (in_table s used) e) (expires was refl),
          )
      | inr more ↦
          let f = scan_slots-Keeps max_unacked 0 s (in_table s used) in
          rw (scan_port-slots s used more) (f.touches, rests f.state)
    ]
  ]

-- The scan of `left` ports from `i` on leaves those before it alone.
record Scans (i : ℕ) (s t : Sys) : Type 0 where
  before : (j : ℕ) → j < i → port_at t.ports j ≡ port_at s.ports j
  turns : Turns timed_out s t

scan_ports-Scans :
    (env : Env) (now left i : ℕ) (s : Sys) → Scans i s (scan_ports env now left i s).1
unfolding scan_ports
scan_ports-Scans env now zero i s = record { before = λ j lt. refl; turns = λ j. rests refl }
scan_ports-Scans env now (suc left) i s =
    let t = (scan_port env now i s).1 in
    let one = scan_port-Turn env now i s in
    let f : TouchesOnly i s t = one.0 in
    let rest : Scans (i + 1) t (scan_ports env now left (i + 1) t).1 =
      scan_ports-Scans env now left (i + 1) t in
    record {
      before = λ j lt. rest.before j (omega arith) ∙ f.others j (λ e. absurd (omega (arith, e)));
      turns = λ j. elim (ℕ_discrete j i) [
        | yes e ↦ rw (e, rest.before i (omega arith)) one.1
        | no ne ↦ let turn = rest.turns j in rw (f.others j ne) at turn
      ];
    }

pub scan_ports-Turns :
    (env : Env) (now : ℕ) (s : Sys) → Turns timed_out s (scan_ports env now max_ports 0 s).1
scan_ports-Turns env now s = (scan_ports-Scans env now max_ports 0 s).turns
