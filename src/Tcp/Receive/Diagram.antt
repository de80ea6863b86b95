-- ===== src/Tcp/Receive/Diagram.antt =====
-- tcp.c: `input_tcp_internal` as a whole follows the transition diagram.
use ip.Base.{
  lt-of-get_elem?, ℕ, ◌<◌, ◌≡◌, refl, arith, Bool, false, ◌⊎◌, List, none, some, length, Bool-cases,
  Option-cases, inl, inr, ltb, ◌||◌, ◌==◌,
}
use native.Mathlib.Decide.{ℕ_discrete}
use ip.Os.{Env}
use ip.Sys.{is_closed, Sys, Port, fault, flag_rst}
use ip.Tcp.Ports.{port_at, find_port, find_listening_port}
use ip.Tcp.Ports.Find.{find_port_iff, find_listening_port_iff}
use ip.Tcp.Ports.Touch.{TouchesOnly, Keeps, Keeps-trans, Keeps-set}
use ip.Tcp.Segment.{tcp_header_size}
use ip.Tcp.Input.{Input, header, control_of, header_length, select_port}
use ip.Tcp.Acks.{handle_ack, send_ack}
use ip.Tcp.Receive.{is_opening, accept_segment, input_on_port, input_tcp_internal}
use ip.Tcp.Receive.Keep.{handle_ack-Keeps, send_ack-Keeps}
use ip.Tcp.Receive.Moves.{Move, stay, Moves, Keeps-Moves, Moves-same, with_port}
use ip.Tcp.Receive.Handlers.{reset-Moves, on_state-Moves}

accept_segment-Moves :
    (env : Env) (i : ℕ) (m : Input) (s : Sys)
    → i < length s.ports
    → Moves i s (accept_segment env i m s).1
unfolding accept_segment
accept_segment-Moves env i m s lt = elim (Bool-cases (handle_ack i m s).0) [
  | inl a ↦
      let t = (handle_ack i m s).1 in
      let f : Keeps i s t = handle_ack-Keeps i m s lt in
      let room : i < length t.ports = rw f.touches.size lt in
      let u = (send_ack env i m t).1 in
      let g : Keeps i t u = send_ack-Keeps env i m t room in
      let room' : i < length u.ports = rw g.touches.size room in
      let q = record (port_at u.ports i) { other_window = (header m).window } in
      let v = with_port i u q in
      let h : Keeps i u v = Keeps-set i u v q room' refl refl in
      let room'' : i < length v.ports = rw h.touches.size room' in
      rw a (
        Keeps-Moves (Keeps-trans f (Keeps-trans g h))
          (on_state-Moves env i m v room'' (port_at v.ports i).state refl))
  | inr a ↦
      let t = (handle_ack i m s).1 in
      let f : Keeps i s t = handle_ack-Keeps i m s lt in
      rw a (Keeps-Moves f (Moves-same i t t refl))
]

input_on_port-Moves :
    (env : Env) (i : ℕ) (m : Input) (s : Sys)
    → i < length s.ports
    → Moves i s (input_on_port env i m s).1
unfolding input_on_port
input_on_port-Moves env i m s lt = elim (Bool-cases (is_closed (port_at s.ports i).state)) [
  | inl a ↦ rw a (Moves-same i s s refl)
  | inr a ↦ elim (Bool-cases (flag_rst (control_of m))) [
    | inl b ↦ rw (a, b) (reset-Moves env i m s lt)
    | inr b ↦ elim (Bool-cases in_order) [
      | inl c ↦ rw (a, b, c) (accept_segment-Moves env i m s lt)
      | inr c ↦ rw (a, b, c) (Moves-same i s s refl)
    ]
  ]
]
  where
    in_order : Bool
    in_order =
        is_opening (port_at s.ports i).state || (header m).seq_num == (port_at s.ports i).ack_num

select_port-cases :
    (m : Input) (ports : List Port) (i : ℕ)
    → select_port m ports ≡ some i
    → (find_port (header m).dst_port (header m).src_port m.src_ipv4_addr ports ≡ some i)
      ⊎ (find_listening_port (header m).dst_port ports ≡ some i)
unfolding select_port
select_port-cases m ports i h = ground arith

-- What is selected is an entry of the table.
pub select_port-lt :
    (m : Input) (ports : List Port) (i : ℕ) → select_port m ports ≡ some i → i < length ports
select_port-lt m ports i h = elim (select_port-cases m ports i h) [
  | inl e ↦
      let f = (find_port_iff (header m).dst_port (header m).src_port m.src_ipv4_addr ports i).0 e in
      lt-of-get_elem? ports i f.item f.at
  | inr e ↦
      let f = (find_listening_port_iff (header m).dst_port ports i).0 e in
      lt-of-get_elem? ports i f.item f.at
]

pub reaches_port :
    (env : Env) (m : Input) (s : Sys) (i : ℕ)
    → select_port m s.ports ≡ some i
    → ltb (length m.buffer) tcp_header_size ≡ false
    → ltb (header_length m) tcp_header_size ≡ false
    → input_tcp_internal env m s ≡ input_on_port env i m s
unfolding input_tcp_internal
reaches_port env m s i found a b = ground arith

selected-Moves :
    (env : Env) (m : Input) (s : Sys) (i : ℕ)
    → select_port m s.ports ≡ some i
    → Moves i s (input_tcp_internal env m s).1
unfolding input_tcp_internal
selected-Moves env m s i found = elim (Bool-cases (ltb (length m.buffer) tcp_header_size)) [
  | inl a ↦ rw a (Moves-same i s (fault s).1 refl)
  | inr a ↦ elim (Bool-cases (ltb (header_length m) tcp_header_size)) [
    | inl b ↦ rw (a, b) (Moves-same i s s refl)
    | inr b ↦
        rw (reaches_port env m s i found a b)
          (input_on_port-Moves env i m s (select_port-lt m s.ports i found))
  ]
]

unselected :
    (env : Env) (m : Input) (s : Sys)
    → select_port m s.ports ≡ none
    → (input_tcp_internal env m s).1.ports ≡ s.ports
unfolding input_tcp_internal
unselected env m s missing = ground arith

-- A received segment touches no port but the one that it selects.
pub input_tcp_internal-TouchesOnly :
    (env : Env) (m : Input) (s : Sys) (i : ℕ)
    → select_port m s.ports ≡ some i
    → TouchesOnly i s (input_tcp_internal env m s).1
input_tcp_internal-TouchesOnly env m s i found = (selected-Moves env m s i found).touches

-- Whatever segment arrives, every port stays in its state or makes one move of the transition
-- diagram.
pub input_tcp_internal-Move :
    (env : Env) (m : Input) (s : Sys) (j : ℕ)
    → Move (port_at s.ports j).state (port_at (input_tcp_internal env m s).1.ports j).state
input_tcp_internal-Move env m s j = elim (Option-cases (select_port m s.ports)) [
  | inl missing ↦ rw (unselected env m s missing) stay
  | inr (i, found) ↦ elim (ℕ_discrete j i) [
    | yes e ↦ rw e (selected-Moves env m s i found).move
    | no ne ↦ rw ((selected-Moves env m s i found).touches.others j ne) stay
  ]
]
