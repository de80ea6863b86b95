-- ===== src/Wifi.antt =====
-- components/wifi_manager/src/wifi_manager.c: the receive callback, which hands each frame to its
-- protocol.
pub mod Frames
use ip.Base.{
  ℕ, ◌+◌, ◌-◌, ◌==◌, ltb, if◌then◌else◌, List, Option, none, some, State, ◌>>◌, return, modify,
  skip, u16, u32, drop, length,
}
use ip.Utility.Endian.{ntohs, load16}
use ip.Os.{Env, Call}
use ip.Sys.{Sys, fault, record_call}
use ip.Arp.Packets.{arp_ethertype, ipv4_ethertype, arp_input}
use ip.Ipv4.Input.{ipv4_input}

-- The `switch` on the ethertype.
unfoldable pub dispatch_frame : Env → List ℕ → ℕ → State Sys (Unit {0})
dispatch_frame env frame len =
    if ntohs (load16 frame 12) == arp_ethertype
    then arp_input env (drop 14 frame)
    else (if ntohs (load16 frame 12) == ipv4_ethertype
        then ipv4_input env (drop 14 frame) (u16 (len + 65536 - 14))
        else skip)

-- The counters, of 32 bits, for frames with and without a buffer of the driver.
unfoldable pub counted : Option ℕ → Sys → Sys
counted none s = record s {
  wifi_rx_count = u32 (s.wifi_rx_count + 1);
  wifi_buf_eb_null_count = u32 (s.wifi_buf_eb_null_count + 1);
}
counted (some eb) s = record s {
  wifi_rx_count = u32 (s.wifi_rx_count + 1);
  wifi_buf_eb_non_null_count = u32 (s.wifi_buf_eb_non_null_count + 1);
}

-- The frame is given back to the driver, or freed if it has no driver buffer.
abbrev pub release_frame : ℕ → Option ℕ → State Sys (Unit {0})
release_frame buffer none = record_call (Call.free buffer)
release_frame buffer (some eb) = record_call (Call.free_rx_buffer eb)

-- `wifi_rxcb` on the frame at address `buffer`. It reads the Ethernet header whatever the length.
unfoldable pub wifi_rxcb : Env → ℕ → List ℕ → ℕ → Option ℕ → State Sys ℕ
wifi_rxcb env buffer frame len eb =
    if ltb (length frame) 14
    then (do fault; return 0)
    else (do dispatch_frame env frame len; modify (counted eb); release_frame buffer eb; return 0)
