-- ===== src/Tcp/Receive/Delivery.antt =====
-- tcp.c: data that arrives in ESTABLISHED, in order, out of order, and twice.
use ip.Base.{
  ℕ, ◌+◌, ◌<◌, ◌≤◌, ◌≡◌, ◌≢◌, refl, sym, ap, ◌∙◌, arith, true, false, ◌==◌, List, some,
  Option-cases, inl, inr, set, u32, search_from-set,
}
use ip.Os.{Env}
use ip.Sys.{Sys, Port, established, flag_syn, port_zero}
use ip.Tcp.Ports.{port_at, find_port, matches}
use ip.Tcp.Input.{Input, header, control_of, data_length, select_port}
use ip.Tcp.Receive.{accept_segment, input_on_port, input_tcp_internal}
use ip.Tcp.Receive.Diagram.{reaches_port, select_port-lt}
use ip.Tcp.Receive.Data.{IsData, port_at-written, after_data, data_calls, accept_segment-delivers}

-- A segment of data that an ESTABLISHED port does not expect next, without RST, SYN and FIN, has
-- no effect.
pub out_of_order_ignored :
    (env : Env) (i : ℕ) (m : Input) (s : Sys)
    → IsData m
    → select_port m s.ports ≡ some i
    → (port_at s.ports i).state ≡ established
    → (header m).seq_num ≢ (port_at s.ports i).ack_num
    → (input_tcp_internal env m s).1 ≡ s
unfolding input_on_port
out_of_order_ignored env i m s d found open_state elsewhere =
    rw (reaches_port env m s i found d.whole d.header_whole, open_state, d.not_rst, not_equal)
  where
    not_equal : ((header m).seq_num == (port_at s.ports i).ack_num) ≡ false
    not_equal = ground arith

accepted :
    (env : Env) (i : ℕ) (m : Input) (s : Sys)
    → IsData m
    → (port_at s.ports i).state ≡ established
    → (header m).seq_num ≡ (port_at s.ports i).ack_num
    → input_on_port env i m s ≡ accept_segment env i m s
unfolding input_on_port
accepted env i m s d open_state expected = rw (open_state, d.not_rst, equal)
  where
    equal : ((header m).seq_num == (port_at s.ports i).ack_num) ≡ true
    equal = ground arith

-- In ESTABLISHED a segment of data in order, without RST, SYN and FIN, which acknowledges no more
-- than has been sent, has its payload handed to the application once, if that has a callback. With
-- or without one, an ACK from the port to the sender is offered to the send queue, what the
-- segment acknowledges is released, the port expects the next number and takes over the window of
-- the peer, and nothing else changes.
pub data_delivered :
    (env : Env) (i : ℕ) (m : Input) (s : Sys)
    → IsData m
    → select_port m s.ports ≡ some i
    → (port_at s.ports i).state ≡ established
    → (header m).seq_num ≡ (port_at s.ports i).ack_num
    → (header m).ack_num ≤ (port_at s.ports i).seq_num
    → (input_tcp_internal env m s).1 ≡ record s {
      ports = set s.ports i (after_data m (port_at s.ports i));
      log = data_calls env m (port_at s.ports i) s.log;
    }
data_delivered env i m s d found open_state expected known =
    ap (λ r. r.1)
      (reaches_port env m s i found d.whole d.header_whole
        ∙ accepted env i m s d open_state expected)
    ∙ accept_segment-delivers env i m s d (select_port-lt m s.ports i found) open_state
        (ground arith)

selects_connection :
    (m : Input) (ports : List Port)
    → flag_syn (control_of m) ≡ false
    → select_port m ports ≡ find_port (header m).dst_port (header m).src_port m.src_ipv4_addr ports
unfolding select_port
selects_connection m ports not_syn =
    elim (Option-cases (find_port (header m).dst_port (header m).src_port m.src_ipv4_addr ports)) [
      | inl missing ↦ ground (arith, missing, not_syn)
      | inr (i, found) ↦ ground (arith, found)
    ]

-- The segment is still for the same port afterwards.
select_port-after_data :
    (i : ℕ) (m : Input) (ports : List Port)
    → IsData m
    → select_port m ports ≡ some i
    → select_port m (set ports i (after_data m (port_at ports i))) ≡ some i
unfolding find_port matches
select_port-after_data i m ports d found =
    selects_connection m (set ports i (after_data m (port_at ports i))) d.not_syn
    ∙ search_from-set (matches (header m).dst_port (header m).src_port m.src_ipv4_addr) 0 ports i
        (after_data m (port_at ports i)) port_zero refl (select_port-lt m ports i found)
    ∙ sym (selects_connection m ports d.not_syn)
    ∙ found

-- In ESTABLISHED a segment of data in order, without RST, SYN and FIN and with a number within 32
-- bits, which acknowledges no more than has been sent, has no effect when it arrives once more, so
-- that its payload is not handed over again.
pub duplicate_ignored :
    (env : Env) (i : ℕ) (m : Input) (s : Sys)
    → IsData m
    → select_port m s.ports ≡ some i
    → (port_at s.ports i).state ≡ established
    → (header m).seq_num ≡ (port_at s.ports i).ack_num
    → (header m).seq_num < 4294967296
    → (header m).ack_num ≤ (port_at s.ports i).seq_num
    → let t = (input_tcp_internal env m s).1 in (input_tcp_internal env m t).1 ≡ t
duplicate_ignored env i m s d found open_state expected range known =
    rw (data_delivered env i m s d found open_state expected known) (
      out_of_order_ignored env i m t d (select_port-after_data i m s.ports d found)
        (ap (λ q. q.state) here ∙ open_state) (λ e. moved_on (e ∙ ap (λ q. q.ack_num) here)))
  where
    t : Sys
    t = record s {
      ports = set s.ports i (after_data m (port_at s.ports i));
      log = data_calls env m (port_at s.ports i) s.log;
    }

    here : port_at t.ports i ≡ after_data m (port_at s.ports i)
    here = port_at-written i s (after_data m (port_at s.ports i)) (select_port-lt m s.ports i found)

    moved_on : (header m).seq_num ≢ u32 ((header m).seq_num + data_length m)
    moved_on e = absurd (omega (arith, d.some_data))
