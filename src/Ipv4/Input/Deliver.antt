-- ===== src/Ipv4/Input/Deliver.antt =====
-- ipv4.c and the entry of tcp.c: what reaches the TCP task of a packet that was sent, and what a
-- packet does whose total length is less than its header.
use ip.Base.{
  ℕ, ◌+◌, ◌-◌, ◌≤◌, ◌<◌, ◌≡◌, refl, ap, arith, u16, List, [], ◌∷◌, ◌++◌, some, length,
  length-append, take, if◌then◌else◌, le→ltb, lt→ltb,
}
use ip.Utility.Types.{Ipv4Addr}
use ip.Os.{Env, Call, Timeout, Queue, TcpInputEvent}
use ip.Sys.{Sys}
use ip.Tcp.Send.Checksum.{IsIp}
use ip.Tcp.Commands.{input_tcp}
use ip.Ipv4.Header.{packet_bytes}
use ip.Ipv4.Input.{ipv4_input, deliver}
use ip.Ipv4.Input.Accept.{sent_header, drop-packet_bytes, ipv4_input_accepts}

take-append {ℓ} : {A : Type ℓ} (xs ys : List A) → take (length xs) (xs ++ ys) ≡ xs
take-append [] ys = refl
take-append (x ∷ xs) ys = ap (λ t. x ∷ t) (take-append xs ys)

-- The event for a segment that was copied to `addr`.
abbrev pub event_for : ℕ → List ℕ → Ipv4Addr → TcpInputEvent
event_for addr segment src = record {
  buffer = record { addr = addr; bytes = segment };
  length = length segment;
  src_ipv4_addr = src;
}

-- The calls of `input_tcp` on a segment, when the allocator gives `addr` and the queue answers.
abbrev pub input_calls : Env → ℕ → List ℕ → Ipv4Addr → Sys → List Call
input_calls env addr segment src s =
    let before = Call.malloc (length segment) (some addr) ∷ s.log in
    let sent = env.queue_send Queue.tcp_input_queue before in
    let queued =
      Call.send_tcp_input_queue (event_for addr segment src) Timeout.no_wait sent ∷ before in
    if sent then queued else Call.free addr ∷ queued

input_tcp-queues :
    (env : Env) (addr : ℕ) (segment padding : List ℕ) (src : Ipv4Addr) (s : Sys)
    → env.malloc_at s.log (length segment) ≡ some addr
    → (input_tcp env (segment ++ padding) (length segment) src s).1
      ≡ record s { log = input_calls env addr segment src s }
unfolding input_tcp
input_tcp-queues env addr segment padding src s got =
    rw
      (got, le→ltb (length (segment ++ padding)) (length segment) room, take-append segment padding)
      (ground arith)
  where
    room : length segment ≤ length (segment ++ padding)
    room = omega (arith, length-append segment padding)

-- When there is memory for it, the TCP segment in a packet of at most 65535 bytes that the stack
-- built reaches the input queue of the station that it is addressed to, byte by byte and without
-- the padding, in a block of its own; if the queue is full the block is freed. Nothing else
-- changes.
pub tcp_segment_delivered :
    (env : Env) (addr : ℕ) (segment padding : List ℕ) (src dst : Ipv4Addr) (s : Sys)
    → length segment + length padding < 65516
    → IsIp src
    → IsIp dst
    → dst ≡ s.self_net.ip
    → env.malloc_at s.log (length segment) ≡ some addr
    → let packet = packet_bytes (20 + length segment) 6 src dst (segment ++ padding) in
      (ipv4_input env packet (length packet) s).1
      ≡ record s { log = input_calls env addr segment src s }
tcp_segment_delivered env addr segment padding src dst s small hs hd own got =
    rw (accepted, delivered) (input_tcp-queues env addr segment padding src s got)
  where
    n : ℕ
    n = 20 + length segment

    rest : List ℕ
    rest = segment ++ padding

    accepted :
        ipv4_input env (packet_bytes n 6 src dst rest) (length (packet_bytes n 6 src dst rest)) s
        ≡ deliver env (packet_bytes n 6 src dst rest) (sent_header n 6 src dst) s
    accepted =
        ipv4_input_accepts env n 6 src dst rest s (omega (arith, length-append segment padding))
          (omega (arith, length-append segment padding)) (omega arith) hs hd own

    cut : u16 (n + 65536 - 20) ≡ length segment
    cut = omega arith

    delivered :
        (deliver env (packet_bytes n 6 src dst rest) (sent_header n 6 src dst) s).1
        ≡ (input_tcp env rest (length segment) src s).1
    delivered = unfold deliver in rw (drop-packet_bytes n 6 src dst rest, cut)

-- When the heap grants the wrapped length, a packet whose total length is less than its 20 header
-- bytes passes the tests of ipv4_input; the length of its segment wraps, and the copy for the TCP
-- task reads past the end of the buffer.
pub short_total_length_faults :
    (env : Env) (addr n : ℕ) (src dst : Ipv4Addr) (rest : List ℕ) (s : Sys)
    → n < 20
    → length rest < 65516
    → IsIp src
    → IsIp dst
    → dst ≡ s.self_net.ip
    → env.malloc_at s.log (65516 + n) ≡ some addr
    → let packet = packet_bytes n 6 src dst rest in
      (ipv4_input env packet (length packet) s).1
      ≡ record s { log = Call.fault ∷ Call.malloc (65516 + n) (some addr) ∷ s.log }
short_total_length_faults env addr n src dst rest s short small hs hd own got =
    rw
      (
        ipv4_input_accepts env n 6 src dst rest s (omega arith) small (omega arith) hs hd own,
        delivered,
      )
      copied
  where
    wrapped : u16 (n + 65536 - 20) ≡ 65516 + n
    wrapped = omega arith

    delivered :
        (deliver env (packet_bytes n 6 src dst rest) (sent_header n 6 src dst) s).1
        ≡ (input_tcp env rest (65516 + n) src s).1
    delivered = unfold deliver in rw (drop-packet_bytes n 6 src dst rest, wrapped)

    copied :
        (input_tcp env rest (65516 + n) src s).1
        ≡ record s { log = Call.fault ∷ Call.malloc (65516 + n) (some addr) ∷ s.log }
    copied = unfold input_tcp in rw (got, lt→ltb (length rest) (65516 + n) (omega arith))
