-- ===== src/Tcp/Send/Handover.antt =====
-- tcp.c: what `tcp_send_internal` hands to IPv4 for a new segment.
use ip.Base.{
  ℕ, ◌+◌, ◌<◌, ◌≤◌, ◌≡◌, refl, ap, ◌∙◌, arith, true, false, List, ◌∷◌, some, length, take, drop,
  set, IsFirst, length-take, u32, lt-of-get_elem?,
}
use ip.Utility.Types.{Ipv4Addr}
use ip.Os.{Buf, Env, Call, Log, Queue, Timeout, TcpParams, Ipv4Params}
use ip.Sys.{Sys, Port}
use ip.Ipv4.Transmit.{send_ipv4_packet}
use ip.Tcp.Ports.{port_at, find_port, find_empty_unacked}
use ip.Tcp.Ports.Find.{IsConnection, IsEmptySlot, find_port_iff, find_empty_unacked_iff}
use ip.Tcp.Segment.{Header, read_header}
use ip.Tcp.Segment.Layout.{Fits, read_header-put_front}
use ip.Tcp.Send.{
  seq_increment, remember, finish_segment, number_segment, tcp_send_internal, segment_bytes,
  segment_header,
}
use ip.Tcp.Send.Numbering.{Remembers, remember-Remembers}

-- What the port of a connection hands to IPv4 for a new segment.
abbrev new_datagram : TcpParams → Port → Buf → ℕ → Sys → Ipv4Params
new_datagram p port b a s = record {
  src_ipv4_addr = s.self_net.ip;
  dst_ipv4_addr = p.dst_ipv4_addr;
  protocol = 6;
  payload = record {
    addr = a;
    bytes =
        segment_bytes s.self_net.ip p (segment_header p port port.seq_num) (20 + p.data_len)
          (take p.data_len b.bytes);
  };
  data_len = 20 + p.data_len;
}

-- The header that the peer is to read: the port's own sequence number and the number that it
-- expects next, without options.
abbrev pub expected_header : TcpParams → Port → Header
expected_header p port = record {
  src_port = p.src_port;
  dst_port = p.dst_port;
  seq_num = port.seq_num;
  ack_num = port.ack_num;
  d_offset = 5;
  control = p.control;
  window = port.self_window;
}

-- The datagram goes to the peer as TCP, and the peer reads that header and these bytes from it.
pub record Carries (p : TcpParams) (port : Port) (own : Ipv4Addr) (bytes : List ℕ) (d : Ipv4Params)
    : Type 0 where
  pub from_own : d.src_ipv4_addr ≡ own
  pub to_peer : d.dst_ipv4_addr ≡ p.dst_ipv4_addr
  pub is_tcp : d.protocol ≡ 6
  pub covers : d.data_len ≡ 20 + length bytes
  pub header : read_header d.payload.bytes ≡ expected_header p port
  pub content : drop 20 d.payload.bytes ≡ bytes

-- The state once the segment has been numbered, before it is handed over.
abbrev numbered : TcpParams → ℕ → ℕ → ℕ → Log → Sys → Sys
numbered p i j now asked s = record s {
  ports = set s.ports i (remember (port_at s.ports i) p j now);
  log = Call.tick_count now ∷ asked;
}

sends_numbered :
    (env : Env) (p : TcpParams) (b : Buf) (i j a : ℕ) (s : Sys)
    → find_port p.src_port p.dst_port p.dst_ipv4_addr s.ports ≡ some i
    → find_empty_unacked (port_at s.ports i) ≡ some j
    → env.malloc_at s.log (20 + p.data_len + 12) ≡ some a
    → p.data_len + 20 < 65536
    → p.payload ≡ some b
    → p.data_len ≤ length b.bytes
    → 0 < seq_increment p
    → p.is_retransmission ≡ false
    → let asked = Call.malloc (20 + p.data_len + 12) (some a) ∷ s.log in
      tcp_send_internal env p s
      ≡ send_ipv4_packet env
          (new_datagram p (port_at s.ports i) b a s)
          (numbered p i j (u32 (env.ticks_now asked)) asked s)
unfolding tcp_send_internal number_segment finish_segment
sends_numbered env p b i j a s found empty got fits holds enough counts is_new =
    ground (arith, found, empty, got, holds, is_new)

queued :
    (env : Env) (d : Ipv4Params) (s : Sys)
    → s.has_ipv4_queue ≡ true
    → env.queue_send Queue.ipv4_transmit_queue s.log ≡ true
    → (send_ipv4_packet env d s).1
      ≡ record s { log = Call.send_ipv4_queue d Timeout.no_wait true ∷ s.log }
unfolding send_ipv4_packet
queued env d s ready room = ground (arith, ready, room)

new_datagram-Carries :
    (p : TcpParams) (port : Port) (b : Buf) (a : ℕ) (s : Sys)
    → p.data_len ≤ length b.bytes
    → Fits (expected_header p port)
    → Carries p port s.self_net.ip (take p.data_len b.bytes) (new_datagram p port b a s)
unfolding segment_bytes
new_datagram-Carries p port b a s enough fits = record {
  from_own = refl;
  to_peer = refl;
  is_tcp = refl;
  covers = omega (arith, length-take p.data_len b.bytes);
  header = read_header-put_front (expected_header p port) _ fits;
  content = refl;
}

-- When there are memory, room in the queue of the IPv4 task, a port of the connection and an empty
-- slot in it, a new segment that counts, with fields in range and a payload that holds its length
-- and fits 16 bits, is handed to IPv4 once; from that datagram the peer reads the port's sequence
-- number, the number that the port expects and the payload. The first empty slot remembers the
-- segment, the sequence number goes up by its length, and nothing else changes.
pub new_segment_sent :
    (env : Env) (p : TcpParams) (b : Buf) (i j a : ℕ) (s : Sys)
    → IsFirst (IsConnection p.src_port p.dst_port p.dst_ipv4_addr) s.ports i
    → IsFirst IsEmptySlot (port_at s.ports i).unacked j
    → env.malloc_at s.log (20 + p.data_len + 12) ≡ some a
    → p.data_len + 20 < 65536
    → p.payload ≡ some b
    → p.data_len ≤ length b.bytes
    → 0 < seq_increment p
    → p.is_retransmission ≡ false
    → Fits (expected_header p (port_at s.ports i))
    → s.has_ipv4_queue ≡ true
    → let asked = Call.malloc (20 + p.data_len + 12) (some a) ∷ s.log in
      let now = u32 (env.ticks_now asked) in
      env.queue_send Queue.ipv4_transmit_queue (Call.tick_count now ∷ asked) ≡ true
      → let port = port_at s.ports i in
        (d : Ipv4Params) × (q : Port) × Carries p port s.self_net.ip (take p.data_len b.bytes) d
        × Remembers p j now port q
        × ((tcp_send_internal env p s).1 ≡ record s {
          ports = set s.ports i q;
          log = Call.send_ipv4_queue d Timeout.no_wait true ∷ Call.tick_count now ∷ asked;
        })
new_segment_sent env p b i j a s at first got fits holds enough counts is_new header ready room =
    let port = port_at s.ports i in
    let asked = Call.malloc (20 + p.data_len + 12) (some a) ∷ s.log in
    let now = u32 (env.ticks_now asked) in
    let found = (find_port_iff p.src_port p.dst_port p.dst_ipv4_addr s.ports i).1 at in
    let empty = (find_empty_unacked_iff port j).1 first in
    let d = new_datagram p port b a s in
    (
      d,
      remember port p j now,
      new_datagram-Carries p port b a s enough header,
      remember-Remembers port p j now (lt-of-get_elem? port.unacked j first.item first.at),
      ap (λ r. r.1) (sends_numbered env p b i j a s found empty got fits holds enough counts is_new)
          ∙ queued env d (numbered p i j now asked s) ready room,
    )
