-- ===== src/Tcp/Receive/Data.antt =====
-- tcp.c: the steps of `input_tcp_internal` on a segment of data in ESTABLISHED.
use ip.Base.{
  ℕ, ◌+◌, ◌<◌, ◌≡◌, ap, ◌∙◌, arith, true, ltb, leb, lt→ltb, List, [], ◌∷◌, ◌++◌, Option, none, some,
  length, Option-cases, inl, inr, false, set, drop, u32, set-set, get_or-set_self, length-set,
}
use ip.Os.{Env, Call, Timeout, Queue, TcpParams}
use ip.Sys.{Sys, Port, established, flag_fin, flag_syn, flag_rst, flag_ack, port_zero}
use ip.Tcp.Ports.{port_at}
use ip.Tcp.Segment.{tcp_header_size}
use ip.Tcp.Send.{tcp_enqueue}
use ip.Tcp.Input.{Input, header, control_of, header_length, data_length, sequence_increment}
use ip.Tcp.Acks.{control_segment, ack, release_acked, handle_ack, send_ack}
use ip.Tcp.States.{on_established, on_state}
use ip.Tcp.Receive.{accept_segment}
use ip.Tcp.Receive.Slots.{ack_slots_lem, acked_slots, ack_calls}

-- A segment that only carries data.
pub record IsData (m : Input) : Type 0 where
  pub whole : ltb (length m.buffer) tcp_header_size ≡ false
  pub header_whole : ltb (header_length m) tcp_header_size ≡ false
  pub not_rst : flag_rst (control_of m) ≡ false
  pub not_syn : flag_syn (control_of m) ≡ false
  pub not_fin : flag_fin (control_of m) ≡ false
  pub has_ack : flag_ack (control_of m) ≡ true
  pub some_data : 0 < data_length m

-- The port after what a segment acknowledges has been released.
abbrev pub with_acked : Input → Port → Port
with_acked m p = record p { unacked = acked_slots (header m).ack_num p.unacked }

pub handle_ack-releases :
    (i : ℕ) (m : Input) (s : Sys)
    → flag_ack (control_of m) ≡ true
    → leb (header m).ack_num (port_at s.ports i).seq_num ≡ true
    → let p = port_at s.ports i in
      handle_ack i m s ≡ (
        true,
        record s {
          ports = set s.ports i (with_acked m p);
          log = ack_calls (header m).ack_num p.unacked_slots p.unacked ++ s.log;
        },
      )
unfolding handle_ack release_acked
handle_ack-releases i m s has known = rw (
  has,
  known,
  ack_slots_lem (header m).ack_num (port_at s.ports i).unacked_slots (port_at s.ports i).unacked s,
)

-- The port after the segment has been acknowledged to the peer.
abbrev pub with_next : Input → Port → Port
with_next m p = record p { ack_num = u32 ((header m).seq_num + data_length m) }

send_ack-sends :
    (env : Env) (i : ℕ) (m : Input) (s : Sys)
    → IsData m
    → i < length s.ports
    → (port_at s.ports i).state ≡ established
    → let p = with_next m (port_at s.ports i) in
      (send_ack env i m s).1 ≡ record s {
        ports = set s.ports i p;
        log =
            Call.send_tcp_queue
              (control_segment m p ack)
              Timeout.max_delay
              (env.queue_send Queue.tcp_send_queue s.log)
            ∷ s.log;
      }
unfolding send_ack tcp_enqueue
send_ack-sends env i m s d lt open_state = ground (
  arith,
  counted,
  lt→ltb 0 (data_length m) d.some_data,
  open_state,
  get_or-set_self s.ports i (with_next m (port_at s.ports i)) port_zero lt,
)
  where
    counted : sequence_increment m ≡ data_length m
    counted = rw (d.not_syn, d.not_fin) (omega arith)

-- The call that hands the payload over, if the application has a callback.
abbrev pub received : Option ℕ → Input → List Call
received none m = []
received (some f) m = Call.tcp_received f (drop (header_length m) m.buffer) (data_length m) ∷ []

on_established-delivers :
    (env : Env) (i : ℕ) (m : Input) (s : Sys)
    → IsData m
    → (on_established env i m s).1
      ≡ record s { log = received (port_at s.ports i).callbacks.on_receive m ++ s.log }
unfolding on_established
on_established-delivers env i m s d = elim (Option-cases (port_at s.ports i).callbacks.on_receive) [
  | inl silent ↦ rw (d.not_fin, lt→ltb 0 (data_length m) d.some_data, silent)
  | inr (f, calls) ↦ rw (d.not_fin, lt→ltb 0 (data_length m) d.some_data, calls)
]

-- The `switch` on the state that the port then has.
dispatch : Env → ℕ → Input → Sys → Sys
dispatch env i m v = (on_state (port_at v.ports i).state env i m v).1

dispatch-delivers :
    (env : Env) (i : ℕ) (m : Input) (v : Sys) (p : Port)
    → IsData m
    → port_at v.ports i ≡ p
    → p.state ≡ established
    → dispatch env i m v ≡ record v { log = received p.callbacks.on_receive m ++ v.log }
unfolding dispatch on_state
dispatch-delivers env i m v p d at open_state =
    rw (dispatch, ap (λ q. q.state) at ∙ open_state)
      (on_established-delivers env i m v d
        ∙ ap (λ q. record v { log = received q.callbacks.on_receive m ++ v.log }) at)

-- Port `i` written anew.
abbrev pub written : ℕ → Sys → Port → Sys
written i s p = record s { ports = set s.ports i p }

pub port_at-written :
    (i : ℕ) (s : Sys) (p : Port) → i < length s.ports → port_at (written i s p).ports i ≡ p
port_at-written i s p lt = get_or-set_self s.ports i p port_zero lt

-- The port after the window has been taken over, too.
abbrev pub with_window : Input → Port → Port
with_window m p = record p { other_window = (header m).window }

-- The port after the segment: what the segment acknowledges is released, the next number is
-- expected, and the peer's window is known; all else is as before.
abbrev pub after_data : Input → Port → Port
after_data m p = record p {
  unacked = acked_slots (header m).ack_num p.unacked;
  ack_num = u32 ((header m).seq_num + data_length m);
  other_window = (header m).window;
}

-- An ACK without data, from the port back to the sender.
abbrev pub ack_reply : Input → Port → TcpParams
ack_reply m p = record {
  dst_ipv4_addr = m.src_ipv4_addr;
  src_port = p.self_port_num;
  dst_port = p.other_port_num;
  seq_num = p.seq_num;
  control = 16;
  is_retransmission = false;
  payload = none;
  data_len = 0;
}

-- The calls for the segment, newest first: for what it acknowledges, for the ACK, and the
-- callback.
abbrev pub data_calls : Env → Input → Port → List Call → List Call
data_calls env m p before =
    let released = ack_calls (header m).ack_num p.unacked_slots p.unacked ++ before in
    received p.callbacks.on_receive m
    ++ (Call.send_tcp_queue (ack_reply m p) Timeout.max_delay
          (env.queue_send Queue.tcp_send_queue released)
        ∷ released)

-- A port that is written twice, the second time from what the first has left.
write_again :
    (ps : List Port) (i : ℕ) (p : Port) (next : Port → Port)
    → i < length ps
    → set (set ps i p) i (next (port_at (set ps i p) i)) ≡ set ps i (next p)
write_again ps i p next lt =
    ap (λ q. set (set ps i p) i (next q)) (get_or-set_self ps i p port_zero lt)
    ∙ set-set ps i p (next p)

pub accept_segment-delivers :
    (env : Env) (i : ℕ) (m : Input) (s : Sys)
    → IsData m
    → i < length s.ports
    → (port_at s.ports i).state ≡ established
    → leb (header m).ack_num (port_at s.ports i).seq_num ≡ true
    → (accept_segment env i m s).1 ≡ record s {
      ports = set s.ports i (after_data m (port_at s.ports i));
      log = data_calls env m (port_at s.ports i) s.log;
    }
unfolding accept_segment dispatch
accept_segment-delivers env i m s d lt open_state known =
    rw (handle_ack-releases i m s d.has_ack known) (
      ap (λ u. dispatch env i m (windowed u))
        (send_ack-sends env i m s1 d lt1 (ap (λ q. q.state) at1 ∙ open_state) ∙ sent)
      ∙ ap (λ ps. dispatch env i m (record s2 { ports = ps }))
          (write_again s.ports i (with_next m (with_acked m p)) (with_window m) lt)
      ∙ dispatch-delivers env i m (record s2 { ports = set s.ports i (after_data m p) })
          (after_data m p) d (port_at-written i s (after_data m p) lt) open_state)
  where
    p : Port
    p = port_at s.ports i

    windowed : Sys → Sys
    windowed u = written i u (with_window m (port_at u.ports i))

    s1 : Sys
    s1 = record s {
      ports = set s.ports i (with_acked m p);
      log = ack_calls (header m).ack_num p.unacked_slots p.unacked ++ s.log;
    }

    lt1 : i < length s1.ports
    lt1 = omega (arith, length-set s.ports i (with_acked m p))

    at1 : port_at s1.ports i ≡ with_acked m p
    at1 = port_at-written i s (with_acked m p) lt

    reply : Port → List Call
    reply q =
        Call.send_tcp_queue (control_segment m (with_next m q) ack) Timeout.max_delay
          (env.queue_send Queue.tcp_send_queue s1.log)
        ∷ s1.log

    s2 : Sys
    s2 = record s {
      ports = set s.ports i (with_next m (with_acked m p));
      log = reply (with_acked m p);
    }

    sent :
        record s1 {
          ports = set s1.ports i (with_next m (port_at s1.ports i));
          log = reply (port_at s1.ports i);
        }
        ≡ s2
    sent = λ k. record s {
      ports = write_again s.ports i (with_acked m p) (with_next m) lt k;
      log = reply (at1 k);
    }
