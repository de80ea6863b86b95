-- ===== src/Ipv4/Output.antt =====
-- ipv4.c: `internal_send_ipv4_packet`, which the IPv4 task runs on each queued packet.
pub mod Frames
pub mod Payload
use ip.Base.{
  ℕ, ◌+◌, ◌||◌, ltb, if◌then◌else◌, List, Option, none, some, State, ◌>>=◌, ◌>>◌, return, get, skip,
  u16, take, length,
}
use ip.Utility.Endian.{htons}
use ip.Os.{Env, Call, Err, Ipv4Params}
use ip.Sys.{Sys, CacheRow, malloc, fault, free_buf, record_call}
use ip.Eth.{eth_tx}
use ip.Arp.Packets.{ipv4_ethertype}
use ip.Arp.Task.{arp_get_mac_addr}
use ip.Ipv4.Header.{header_size, packet_bytes}

-- The packet that goes out for the parameters.
unfoldable pub packet_of : Ipv4Params → List ℕ
packet_of p =
    packet_bytes (u16 (header_size + p.data_len)) p.protocol p.src_ipv4_addr p.dst_ipv4_addr
      (take p.data_len p.payload.bytes)

-- From the look-up of the destination on.
unfoldable pub send_resolved :
    Env → (List CacheRow → List CacheRow) → ℕ → Ipv4Params → ℕ → State Sys Err
send_resolved env meanwhile task p packet_buf = do
  mac ← arp_get_mac_addr env meanwhile task p.dst_ipv4_addr
  elim mac [
    | none ↦ do record_call (Call.free packet_buf); return Err.esp_fail
    | some dst_mac_addr ↦ do
      s ← get
      result ←
          eth_tx env dst_mac_addr s.self_net.mac (htons ipv4_ethertype) (packet_of p)
            (u16 (header_size + p.data_len))
      record_call (Call.free packet_buf)
      return result
  ]

-- `internal_send_ipv4_packet`, run by the task `task`. A payload shorter than `data_len` would be
-- read past its end, a packet too long for its 16-bit length written past its block.
unfoldable pub internal_send_ipv4_packet :
    Env → (List CacheRow → List CacheRow) → ℕ → Ipv4Params → State Sys Err
internal_send_ipv4_packet env meanwhile task p = do
  let packet_len = u16 (header_size + p.data_len)
  packet_buf ← malloc env packet_len
  elim packet_buf [
    | none ↦ do free_buf (some p.payload); return Err.esp_err_no_mem
    | some addr ↦
        if ltb (length p.payload.bytes) p.data_len || ltb packet_len (header_size + p.data_len)
        then (do fault; return Err.esp_fail)
        else (do free_buf (some p.payload); send_resolved env meanwhile task p addr)
  ]

-- One round of `ipv4_task`: what it has received, if anything, is sent.
unfoldable pub ipv4_task_round :
    Env → (List CacheRow → List CacheRow) → ℕ → Option Ipv4Params → State Sys (Unit {0})
ipv4_task_round env meanwhile task none = skip
ipv4_task_round env meanwhile task (some params) = do
  internal_send_ipv4_packet env meanwhile task params
  skip
