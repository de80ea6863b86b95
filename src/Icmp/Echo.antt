-- ===== src/Icmp/Echo.antt =====
-- icmpv4.c: an echo request is answered with what it carried.
use ip.Base.{
  ℕ, ◌+◌, ◌-◌, ◌<◌, ◌≡◌, ◌∙◌, refl, arith, true, u16, List, [], ◌∷◌, some, length, drop, get_or,
  le→ltb, take_all,
}
use ip.Utility.Types.{Ipv4Addr}
use ip.Utility.Endian.{put16, htons, ntohs, load16, load16-put16}
use ip.Utility.Checksum.{net_checksum}
use ip.Utility.Checksum.Sum.{IsBytes}
use ip.Utility.Checksum.Verify.{even_nil, even_cons, net_checksum_filled}
use ip.Os.{Env, Call, Queue, Timeout, Ipv4Params}
use ip.Sys.{Sys}
use ip.Ipv4.Transmit.{send_ipv4_packet}
use ip.Ipv4.Header.{packet_bytes}
use ip.Icmp.{reply_checksum, reply_bytes, send_icmpv4_ping_reply, icmpv4_input}

-- The receiver of an echo reply with a payload of less than 65528 bytes finds a checksum of 0.
pub reply_verifies :
    (id seq_num : ℕ) (payload : List ℕ)
    → id < 65536
    → seq_num < 65536
    → IsBytes payload
    → length payload + 8 < 65536
    → let reply = reply_bytes id seq_num payload (length payload) in
      net_checksum reply (length reply) ≡ 0
unfolding reply_bytes reply_checksum
reply_verifies id seq_num payload hi hs hp lt = rw whole (
    net_checksum_filled (0 ∷ 0 ∷ []) tail (even_cons 0 0 even_nil) (omega arith)
      (omega arith, (omega arith, (omega arith, (omega arith, hp)))) (omega arith))
  where
    tail : List ℕ
    tail = put16 (htons id) (put16 (htons seq_num) payload)

    whole : u16 (8 + length payload) ≡ length (0 ∷ 0 ∷ 0 ∷ 0 ∷ tail)
    whole = omega arith

-- An echo request, as it lies behind an IPv4 header.
abbrev pub echo_request : ℕ → ℕ → ℕ → ℕ → List ℕ → List ℕ
echo_request c d id seq_num payload =
    8 ∷ 0 ∷ c ∷ d ∷ put16 (htons id) (put16 (htons seq_num) payload)

-- What a station reads from an echo reply: type and code 0, the identifier, the sequence number
-- and the payload, and a checksum that verifies.
pub record IsReply (id seq_num : ℕ) (payload bytes : List ℕ) : Type 0 where
  pub is_reply : get_or bytes 0 0 ≡ 0
  pub no_code : get_or bytes 1 0 ≡ 0
  pub same_id : ntohs (load16 bytes 4) ≡ id
  pub same_seq_num : ntohs (load16 bytes 6) ≡ seq_num
  pub same_payload : drop 8 bytes ≡ payload
  pub verifies : net_checksum bytes (length bytes) ≡ 0

reply_bytes-IsReply :
    (id seq_num : ℕ) (payload : List ℕ)
    → id < 65536
    → seq_num < 65536
    → IsBytes payload
    → length payload + 8 < 65536
    → IsReply id seq_num payload (reply_bytes id seq_num payload (length payload))
reply_bytes-IsReply id seq_num payload hi hs hp lt =
    let sum = reply_verifies id seq_num payload hi hs hp lt in
    unfold reply_bytes in
    record {
      is_reply = refl;
      no_code = refl;
      same_id = load16-put16 id [] hi;
      same_seq_num = load16-put16 seq_num [] hs;
      same_payload = refl;
      verifies = sum;
    }

request_understood :
    (env : Env) (c d id seq_num : ℕ) (src dst : Ipv4Addr) (payload : List ℕ) (s : Sys)
    → id < 65536
    → seq_num < 65536
    → length payload < 65508
    → let n = 28 + length payload in
      (icmpv4_input env (packet_bytes n 1 src dst (echo_request c d id seq_num payload)) n s).1
      ≡ (send_icmpv4_ping_reply env src id seq_num payload (length payload) s).1
unfolding icmpv4_input packet_bytes
request_understood env c d id seq_num src dst payload s hi hs lt =
    rw
      (
        le→ltb (28 + length payload) 28 (omega arith),
        load16-put16 (28 + length payload) [] (omega arith),
        load16-put16 id [] hi,
        load16-put16 seq_num [] hs,
        cut,
      )
      (ground arith)
  where
    cut : u16 (28 + length payload + 65536 - 20 - 8) ≡ length payload
    cut = omega arith

-- The packet that carries a reply.
abbrev reply_packet : Ipv4Addr → ℕ → ℕ → List ℕ → ℕ → Sys → Ipv4Params
reply_packet dst id seq_num payload a s = record {
  src_ipv4_addr = s.self_net.ip;
  dst_ipv4_addr = dst;
  protocol = 1;
  payload = record { addr = a; bytes = reply_bytes id seq_num payload (length payload) };
  data_len = 8 + length payload;
}

reply_queued :
    (env : Env) (id seq_num a : ℕ) (dst : Ipv4Addr) (payload : List ℕ) (s : Sys)
    → length payload < 65508
    → env.malloc_at s.log (8 + length payload) ≡ some a
    → s.has_ipv4_queue ≡ true
    → let asked = Call.malloc (8 + length payload) (some a) ∷ s.log in
      env.queue_send Queue.ipv4_transmit_queue asked ≡ true
      → (send_icmpv4_ping_reply env dst id seq_num payload (length payload) s).1 ≡ record s {
        log =
            Call.send_ipv4_queue (reply_packet dst id seq_num payload a s) Timeout.no_wait true
            ∷ asked;
      }
unfolding send_icmpv4_ping_reply send_ipv4_packet
reply_queued env id seq_num a dst payload s lt got ready room =
    ground (arith, got, ready, room, take_all payload)

-- When there is memory for it and room in the queue of the IPv4 task, an echo request with a
-- payload of less than 65508 bytes has one packet handed to IPv4 for its source, from which that
-- reads an echo reply with the identifier, the sequence number and the payload of the request and
-- a checksum that verifies; nothing else happens.
pub echo_answered :
    (env : Env) (c d id seq_num a : ℕ) (src dst : Ipv4Addr) (payload : List ℕ) (s : Sys)
    → id < 65536
    → seq_num < 65536
    → IsBytes payload
    → length payload < 65508
    → env.malloc_at s.log (8 + length payload) ≡ some a
    → s.has_ipv4_queue ≡ true
    → let asked = Call.malloc (8 + length payload) (some a) ∷ s.log in
      env.queue_send Queue.ipv4_transmit_queue asked ≡ true
      → let n = 28 + length payload in
        (reply : List ℕ) × IsReply id seq_num payload reply
        × ((icmpv4_input env (packet_bytes n 1 src dst (echo_request c d id seq_num payload)) n s).1
            ≡ record s {
              log =
                  Call.send_ipv4_queue
                    (record {
                      src_ipv4_addr = s.self_net.ip;
                      dst_ipv4_addr = src;
                      protocol = 1;
                      payload = record { addr = a; bytes = reply };
                      data_len = 8 + length payload;
                    })
                    Timeout.no_wait
                    true
                  ∷ asked;
            })
echo_answered env c d id seq_num a src dst payload s hi hs hp lt got ready room = (
  reply_bytes id seq_num payload (length payload),
  reply_bytes-IsReply id seq_num payload hi hs hp (omega arith),
  request_understood env c d id seq_num src dst payload s hi hs lt
      ∙ reply_queued env id seq_num a src payload s lt got ready room,
)
