-- ===== src/Tcp/Send/Numbering.antt =====
-- tcp.c: what `tcp_send_internal` does to the ports: sequence numbers and slots.
use ip.Base.{
  ℕ, ◌+◌, ◌<◌, ◌≡◌, ◌≢◌, refl, ap, ◌∙◌, length, get_elem?, get_elem?-set_self, get_elem?-set_ne,
  if◌then◌else◌, lt-of-get_elem?, arith, true, false, ◌&&◌, ◌||◌, not, ltb, List, none, some, inl,
  inr, ◌⊎◌, ◌∷◌, set, Bool-cases, Option-cases, IsFirst, u16, u32,
}
use ip.Os.{Env, Call, TcpParams}
use ip.Sys.{Sys, Port, flag_fin, flag_syn}
use ip.Ipv4.Transmit.{send_ipv4_packet}
use ip.Tcp.Ports.{port_at, find_port, find_empty_unacked}
use ip.Tcp.Ports.Find.{IsConnection, IsEmptySlot, find_port_iff, find_empty_unacked_iff}
use ip.Tcp.Send.{
  seq_increment, remember, finish_segment, number_segment, tcp_send_internal, segment_payload,
  overreads,
}

-- How a port looks once slot `j` remembers a segment: the slot holds it, under the port's sequence
-- number, which has gone up by the segment's length, a SYN or FIN counted with it; the other slots
-- and fields are as before.
pub record Remembers (p : TcpParams) (j now : ℕ) (before after : Port) : Type 0 where
  pub kept :
      get_elem? after.unacked j
      ≡ some (record {
        seq_num = before.seq_num;
        in_use = true;
        payload = p.payload;
        data_len = p.data_len;
        sent_at = now;
        control = p.control;
      })
  pub others : (k : ℕ) → j ≢ k → get_elem? after.unacked k ≡ get_elem? before.unacked k
  pub next :
      after.seq_num
      ≡ u32 (
          before.seq_num
          + u16 (p.data_len + (if flag_syn p.control || flag_fin p.control then 1 else 0)))
  pub rest : record after { unacked = before.unacked; seq_num = before.seq_num } ≡ before

pub remember-Remembers :
    (port : Port) (p : TcpParams) (j now : ℕ)
    → j < length port.unacked
    → Remembers p j now port (remember port p j now)
unfolding seq_increment
remember-Remembers port p j now lt = record {
  kept = get_elem?-set_self port.unacked j _ lt;
  others = λ k ne. get_elem?-set_ne port.unacked j k _ ne;
  next = refl;
  rest = refl;
}

-- Port `i` has numbered the segment: its first empty slot remembers it, and no other port changes.
pub record Numbered (p : TcpParams) (i : ℕ) (before after : List Port) : Type 0 where
  pub slot : ℕ
  pub now : ℕ
  pub port : Port
  pub first_empty : IsFirst IsEmptySlot (port_at before i).unacked slot
  pub counts : 0 < seq_increment p
  pub is_new : p.is_retransmission ≡ false
  pub remembers : Remembers p slot now (port_at before i) port
  pub ports : after ≡ set before i port

ports-finish_segment :
    (env : Env) (p : TcpParams) (port : Port) (seq n a : ℕ) (payload : List ℕ) (s : Sys)
    → (finish_segment env p port seq n a payload s).1.ports ≡ s.ports
unfolding finish_segment send_ipv4_packet
ports-finish_segment env p port seq n a payload s = ground arith

number_segment-old :
    (env : Env) (p : TcpParams) (i n a : ℕ) (payload : List ℕ) (s : Sys)
    → (ltb 0 (seq_increment p) && not p.is_retransmission) ≡ false
    → (number_segment env p i n a payload s).1.ports ≡ s.ports
unfolding number_segment
number_segment-old env p i n a payload s old =
    ground (arith, old, ports-finish_segment env p (port_at s.ports i) p.seq_num n a payload s)

number_segment-full :
    (env : Env) (p : TcpParams) (i n a : ℕ) (payload : List ℕ) (s : Sys)
    → (ltb 0 (seq_increment p) && not p.is_retransmission) ≡ true
    → find_empty_unacked (port_at s.ports i) ≡ none
    → (number_segment env p i n a payload s).1.ports ≡ s.ports
unfolding number_segment
number_segment-full env p i n a payload s new full = ground (arith, new, full)

number_segment-new :
    (env : Env) (p : TcpParams) (i n a j : ℕ) (payload : List ℕ) (s : Sys)
    → (ltb 0 (seq_increment p) && not p.is_retransmission) ≡ true
    → find_empty_unacked (port_at s.ports i) ≡ some j
    → let port = port_at s.ports i in
      let now = u32 (env.ticks_now s.log) in
      (number_segment env p i n a payload s).1
      ≡ (finish_segment env p port port.seq_num n a payload (record s {
        ports = set s.ports i (remember port p j now);
        log = Call.tick_count now ∷ s.log;
      })).1
unfolding number_segment
number_segment-new env p i n a j payload s new empty = ground (arith, new, empty)

number_segment-Numbered :
    (env : Env) (p : TcpParams) (i n a : ℕ) (payload : List ℕ) (s : Sys)
    → ((number_segment env p i n a payload s).1.ports ≡ s.ports)
      ⊎ Numbered p i s.ports (number_segment env p i n a payload s).1.ports
number_segment-Numbered env p i n a payload s =
    elim (Bool-cases (ltb 0 (seq_increment p) && not p.is_retransmission)) [
      | inr old ↦ inl (number_segment-old env p i n a payload s old)
      | inl new ↦ elim (Option-cases (find_empty_unacked (port_at s.ports i))) [
        | inl full ↦ inl (number_segment-full env p i n a payload s new full)
        | inr (j, empty) ↦
            let port = port_at s.ports i in
            let now = u32 (env.ticks_now s.log) in
            let first = (find_empty_unacked_iff port j).0 empty in
            inr (record {
              slot = j;
              now = now;
              port = remember port p j now;
              first_empty = first;
              remembers =
                  remember-Remembers port p j now
                    (lt-of-get_elem? port.unacked j first.item first.at);
              counts = ground arith;
              is_new = ground arith;
              ports =
                  ap (λ t. t.ports) (number_segment-new env p i n a j payload s new empty)
                  ∙ ports-finish_segment env p port port.seq_num n a payload (record s {
                    ports = set s.ports i (remember port p j now);
                    log = Call.tick_count now ∷ s.log;
                  });
            })
      ]
    ]

-- The state once the block for the datagram has been asked for.
abbrev allocated : Env → TcpParams → Sys → Sys
allocated env p s =
    let size = u16 (20 + p.data_len) + 12 in
    record s { log = Call.malloc size (env.malloc_at s.log size) ∷ s.log }

-- Without a port for the connection no port changes.
tcp_send_internal-unsent :
    (env : Env) (p : TcpParams) (s : Sys)
    → find_port p.src_port p.dst_port p.dst_ipv4_addr s.ports ≡ none
    → (tcp_send_internal env p s).1.ports ≡ s.ports
unfolding tcp_send_internal
tcp_send_internal-unsent env p s missing =
    elim (Option-cases (env.malloc_at s.log (u16 (20 + p.data_len) + 12))) [
      | inl no_memory ↦ ground (arith, no_memory)
      | inr (a, got) ↦ ground (arith, got, missing)
    ]

tcp_send_internal-found :
    (env : Env) (p : TcpParams) (i : ℕ) (s : Sys)
    → find_port p.src_port p.dst_port p.dst_ipv4_addr s.ports ≡ some i
    → ((tcp_send_internal env p s).1.ports ≡ s.ports)
      ⊎ ((a : ℕ) × ((tcp_send_internal env p s).1.ports
            ≡ (number_segment env p i
                (u16 (20 + p.data_len))
                a
                (segment_payload env p (allocated env p s))
                (allocated env p s)).1.ports))
unfolding tcp_send_internal
tcp_send_internal-found env p i s found =
    elim (Option-cases (env.malloc_at s.log (u16 (20 + p.data_len) + 12))) [
      | inl no_memory ↦ inl (ground (arith, no_memory))
      | inr (a, got) ↦
          elim (Bool-cases (overreads p || ltb (u16 (20 + p.data_len)) (20 + p.data_len))) [
            | inl over ↦ inl (ground (arith, got, found, over))
            | inr fits ↦ inr (a, ground (arith, got, found, fits))
          ]
    ]

-- Whatever tcp_send_internal is given to send, either no port changes, or the segment counts and
-- is not sent again, and of the ports only that of the connection changes: its first empty slot
-- holds the segment, in use and with its payload, under the port's sequence number, that number
-- goes up by the length of the segment, and its other slots and fields are as before.
pub tcp_send_internal-Numbered :
    (env : Env) (p : TcpParams) (s : Sys)
    → ((tcp_send_internal env p s).1.ports ≡ s.ports)
      ⊎ ((i : ℕ) × IsFirst (IsConnection p.src_port p.dst_port p.dst_ipv4_addr) s.ports i
          × Numbered p i s.ports (tcp_send_internal env p s).1.ports)
tcp_send_internal-Numbered env p s =
    elim (Option-cases (find_port p.src_port p.dst_port p.dst_ipv4_addr s.ports)) [
      | inl missing ↦ inl (tcp_send_internal-unsent env p s missing)
      | inr (i, found) ↦ elim (tcp_send_internal-found env p i s found) [
        | inl same ↦ inl same
        | inr (a, sent) ↦
            let numbered =
              number_segment-Numbered env p i (u16 (20 + p.data_len)) a
                (segment_payload env p (allocated env p s)) (allocated env p s) in
            rw sent (elim numbered [
              | inl same ↦ inl same
              | inr f ↦
                  inr
                    (i, (find_port_iff p.src_port p.dst_port p.dst_ipv4_addr s.ports i).0 found, f)
            ])
      ]
    ]
