-- ===== src/Ipv4/Output/Payload.antt =====
-- ipv4.c: who owns the payload that is handed to the IPv4 task.
use ip.Base.{
  ℕ, ◌+◌, ◌≡◌, ◌<◌, ◌≤◌, refl, ap, ◌∙◌, take, sym, arith, List, [], ◌∷◌, ◌++◌, none, some, ◌||◌,
  ltb, u16, length, Bool-cases, Option-cases, inl, inr,
}
use mathlib.Core.List.{append_assoc}
use ip.Utility.Types.{MacAddr}
use ip.Os.{Env, Call, Log, Ipv4Params, Timeout, Queue}
use ip.Sys.{Sys, CacheRow}
use ip.Eth.{eth_tx, frame_bytes}
use ip.Arp.Cache.{get_cached}
use ip.Arp.Task.{arp_get_mac_addr, arp_get_cached_mac_addr}
use ip.Utility.Endian.{htons}
use ip.Ipv4.Output.{packet_of, send_resolved, internal_send_ipv4_packet}

-- The calls of the one log come before those of the other.
abbrev pub Extends : Log → Log → Type 0
Extends before after = (calls : Log) × (after ≡ calls ++ before)

Extends-eth_tx :
    (env : Env) (dst src : MacAddr) (ethertype n : ℕ) (payload : List ℕ) (s : Sys)
    → Extends s.log (eth_tx env dst src ethertype payload n s).1.log
unfolding eth_tx
Extends-eth_tx env dst src ethertype n payload s =
    let size = u16 (14 + n) in
    let asked = Call.malloc size (env.malloc_at s.log size) in
    elim (Option-cases (env.malloc_at s.log size)) [
      | inl no_memory ↦ (asked ∷ [], ground (arith, no_memory))
      | inr (a, got) ↦ elim (Bool-cases (ltb (length payload) n || ltb size (14 + n))) [
        | inl over ↦ (Call.fault ∷ asked ∷ [], ground (arith, got, over))
        | inr fits ↦
            let frame = frame_bytes dst src ethertype (take n payload) in
            (
              Call.free a ∷ Call.wifi_tx frame (env.wifi_result (asked ∷ s.log) frame) ∷ asked ∷ [],
              ground (arith, got, fits),
            )
      ]
    ]

-- The state in which the ARP task lets the IPv4 task go on.
abbrev pub waited : Env → (List CacheRow → List CacheRow) → ℕ → Ipv4Params → Sys → Sys
waited env meanwhile task p s = (arp_get_mac_addr env meanwhile task p.dst_ipv4_addr s).1

Extends-waited :
    (env : Env) (meanwhile : List CacheRow → List CacheRow) (task : ℕ) (p : Ipv4Params) (s : Sys)
    → Extends s.log (waited env meanwhile task p s).log
unfolding arp_get_mac_addr arp_get_cached_mac_addr
Extends-waited env meanwhile task p s = (
  Call.notify_take
      ∷ Call.send_arp_request_queue (record { ip = p.dst_ipv4_addr; task = task }) Timeout.max_delay
          (env.queue_send Queue.arp_request_queue s.log)
      ∷ [],
  refl,
)

Extends-trans : {a b c : Log} → Extends a b → Extends b c → Extends a c
Extends-trans {a} f g = (g.0 ++ f.0, g.1 ∙ ap (λ m. g.0 ++ m) f.1 ∙ sym (append_assoc g.0 f.0 a))

pub arp_get_mac_addr-waited :
    (env : Env) (meanwhile : List CacheRow → List CacheRow) (task : ℕ) (p : Ipv4Params) (s : Sys)
    → let t = waited env meanwhile task p s in
      arp_get_mac_addr env meanwhile task p.dst_ipv4_addr s
      ≡ (get_cached p.dst_ipv4_addr t.ip_mac_cache, t)
unfolding arp_get_mac_addr arp_get_cached_mac_addr
arp_get_mac_addr-waited env meanwhile task p s = refl

send_resolved-unknown :
    (env : Env) (meanwhile : List CacheRow → List CacheRow) (task addr : ℕ) (p : Ipv4Params)
    (s : Sys)
    → let t = waited env meanwhile task p s in
      get_cached p.dst_ipv4_addr t.ip_mac_cache ≡ none
      → (send_resolved env meanwhile task p addr s).1 ≡ record t { log = Call.free addr ∷ t.log }
unfolding send_resolved
send_resolved-unknown env meanwhile task addr p s unknown =
    ground (arith, unknown, arp_get_mac_addr-waited env meanwhile task p s)

send_resolved-known :
    (env : Env) (meanwhile : List CacheRow → List CacheRow) (task addr : ℕ) (p : Ipv4Params)
    (mac : MacAddr) (s : Sys)
    → let t = waited env meanwhile task p s in
      get_cached p.dst_ipv4_addr t.ip_mac_cache ≡ some mac
      → (send_resolved env meanwhile task p addr s).1.log
        ≡ Call.free addr
          ∷ (eth_tx env mac t.self_net.mac
              (htons 0x0800)
              (packet_of p)
              (u16 (20 + p.data_len))
              t).1.log
unfolding send_resolved
send_resolved-known env meanwhile task addr p mac s known =
    ground (arith, known, arp_get_mac_addr-waited env meanwhile task p s)

Extends-send_resolved :
    (env : Env) (meanwhile : List CacheRow → List CacheRow) (task addr : ℕ) (p : Ipv4Params)
    (s : Sys)
    → Extends s.log (send_resolved env meanwhile task p addr s).1.log
unfolding send_resolved
Extends-send_resolved env meanwhile task addr p s =
    let t = waited env meanwhile task p s in
    elim (Option-cases (get_cached p.dst_ipv4_addr t.ip_mac_cache)) [
      | inl unknown ↦ Extends-trans (Extends-waited env meanwhile task p s) (
        Call.free addr ∷ [],
        ap (λ u. u.log) (send_resolved-unknown env meanwhile task addr p s unknown),
      )
      | inr (mac, known) ↦
          let sent =
            Extends-eth_tx env mac t.self_net.mac (htons 0x0800) (u16 (20 + p.data_len))
              (packet_of p) t in
          Extends-trans (Extends-waited env meanwhile task p s) (
            Extends-trans sent
              (Call.free addr ∷ [], send_resolved-known env meanwhile task addr p mac s known))
    ]

-- The state once the payload has been copied and its block freed.
abbrev pub payload_copied : Env → Ipv4Params → Sys → Sys
payload_copied env p s =
    let size = 20 + p.data_len in
    record s {
      log = Call.free p.payload.addr ∷ Call.malloc size (env.malloc_at s.log size) ∷ s.log;
    }

pub internal_send-resolved :
    (env : Env) (meanwhile : List CacheRow → List CacheRow) (task a : ℕ) (p : Ipv4Params) (s : Sys)
    → env.malloc_at s.log (20 + p.data_len) ≡ some a
    → p.data_len ≤ length p.payload.bytes
    → p.data_len < 65516
    → internal_send_ipv4_packet env meanwhile task p s
      ≡ send_resolved env meanwhile task p a (payload_copied env p s)
unfolding internal_send_ipv4_packet
internal_send-resolved env meanwhile task a p s got covers short = ground (arith, got)

-- However the transmission of a packet ends, the block of its payload, which holds as many bytes
-- as its length says, is freed: after the block for the packet has been asked for, and before any
-- other call. The payload has less than 65516 bytes.
pub payload_freed :
    (env : Env) (meanwhile : List CacheRow → List CacheRow) (task : ℕ) (p : Ipv4Params) (s : Sys)
    → p.data_len ≤ length p.payload.bytes
    → p.data_len < 65516
    → let size = 20 + p.data_len in
      Extends
        (Call.free p.payload.addr ∷ Call.malloc size (env.malloc_at s.log size) ∷ s.log)
        (internal_send_ipv4_packet env meanwhile task p s).1.log
unfolding internal_send_ipv4_packet
payload_freed env meanwhile task p s covers short =
    elim (Option-cases (env.malloc_at s.log (20 + p.data_len))) [
      | inl no_memory ↦ ([], ground (arith, no_memory))
      | inr (a, got) ↦
          let t : Sys = record s {
            log =
                Call.free p.payload.addr
                ∷ Call.malloc (20 + p.data_len) (env.malloc_at s.log (20 + p.data_len))
                ∷ s.log;
          } in
          rw (internal_send-resolved env meanwhile task a p s got covers short)
            (Extends-send_resolved env meanwhile task a p t)
    ]
