-- ===== src/Eth.antt =====
-- components/net_stack/protocols/eth.c and utility/wifi_tx.c: Ethernet II frames.
pub mod Frame
use ip.Base.{
  ℕ, ◌+◌, ◌||◌, ltb, if◌then◌else◌, List, Option, none, some, State, ◌>>=◌, ◌>>◌, return, u16, take,
  length,
}
use ip.Utility.Types.{MacAddr, put_mac}
use ip.Utility.Endian.{put16}
use ip.Os.{Env, Call, Err}
use ip.Sys.{Sys, malloc, fault, wifi_tx_raw, record_call}

-- The frame: addresses, the ethertype as it lies in memory, and the payload.
abbrev pub frame_bytes : MacAddr → MacAddr → ℕ → List ℕ → List ℕ
frame_bytes dst_mac src_mac ethertype payload =
    put_mac dst_mac (put_mac src_mac (put16 ethertype payload))

-- `eth_tx`. A payload shorter than `payload_len` would be read past its end, a frame too long for
-- its 16-bit length written past its block.
unfoldable pub eth_tx : Env → MacAddr → MacAddr → ℕ → List ℕ → ℕ → State Sys Err
eth_tx env dst_mac src_mac ethertype payload payload_len = do
  let eth_frame_len = u16 (14 + payload_len)
  eth_frame ← malloc env eth_frame_len
  elim eth_frame [
    | none ↦ return Err.esp_err_no_mem
    | some addr ↦
        if ltb (length payload) payload_len || ltb eth_frame_len (14 + payload_len)
        then (do fault; return Err.esp_fail)
        else (do
          result ←
              wifi_tx_raw env (frame_bytes dst_mac src_mac ethertype (take payload_len payload))
          record_call (Call.free addr)
          return result)
  ]
