-- ===== src/Startup/Wifi.antt =====
-- components/wifi_manager/src/wifi_manager.c: `wifi_begin` and the event handler.
pub mod Begin
use ip.Base.{
  ℕ, ◌==◌, if◌then◌else◌, Bool, true, false, State, ◌>>=◌, ◌>>◌, return, return_unless, get, modify,
  skip,
}
use ip.Utility.Types.{Ipv4Addr, NetContext}
use ip.Sys.{Sys, is_ok}
use ip.Arp.Task.{arp_set_local_info}
use ip.Ipv4.Transmit.{ipv4_set_self_net_context}
use ip.Icmp.{icmpv4_set_self_net_context}
use ip.Startup.Kernel.{Handle, SdkCall, Kernel, Boot, queue_create, sdk}
use ip.Startup.Init.{arp_init, ipv4_init}

-- The program while it starts: the network stack, what the kernel has made, and whether frames are
-- handed to wifi_rxcb. `aborted` is a failed `ESP_ERROR_CHECK`, which does not return.
pub record Station : Type 0 where
  pub net : Sys
  pub boot : Boot
  pub rx_callback : Bool
  pub aborted : Bool

-- A step that the kernel answers. The handle of the IPv4 queue is the one that send_ipv4_packet
-- tests.
abbrev pub on_boot : {A : Type 0} → State Boot A → State Station A
on_boot step m =
    let (a, b) = step m.boot in
    (
      a,
      record m {
        boot = b;
        net = record m.net { has_ipv4_queue = b.created Handle.ipv4_transmit_queue };
      },
    )

abbrev pub on_stack : {A : Type 0} → State Sys A → State Station A
on_stack step m = let (a, s) = step m.net in (a, record m { net = s })

abbrev pub abort : State Station (Unit {0})
abort m = (tt, record m { aborted = true })

-- `ESP_ERROR_CHECK(call)` in front of the rest of a function.
unfoldable pub checked : Kernel → SdkCall → State Station (Unit {0}) → State Station (Unit {0})
checked kernel c rest = do result ← on_boot (sdk kernel c); if is_ok result then rest else abort

-- `net_context` of wifi_manager.c once the MAC address has been read.
abbrev pub net_context : Kernel → NetContext
net_context kernel = record {
  mac = kernel.mac;
  ip = record { i0 = 192; i1 = 168; i2 = 1; i3 = 230 };
}

-- The last part of `wifi_begin`, from `arp_init` on.
unfoldable pub begin_protocols : Kernel → State Station (Unit {0})
begin_protocols kernel = do
  on_boot (arp_init kernel)
  on_boot (ipv4_init kernel)
  frees ← on_boot (queue_create kernel Handle.rx_buffer_free_queue 16)
  return_unless frees tt (modify (λ m. record m { rx_callback = true }))

-- The calls that tell the protocols their addresses.
unfoldable pub set_addresses : NetContext → State Sys (Unit {0})
set_addresses context = do
  arp_set_local_info context.mac context.ip
  ipv4_set_self_net_context context
  icmpv4_set_self_net_context context

-- `wifi_begin` from the three calls that set the addresses on.
unfoldable pub begin_addressed : Kernel → State Station (Unit {0})
begin_addressed kernel = do
  on_stack (set_addresses (net_context kernel))
  checked kernel SdkCall.esp_wifi_set_mode (
      checked kernel SdkCall.esp_wifi_set_config (
        checked kernel SdkCall.esp_event_handler_register
          (checked kernel SdkCall.esp_wifi_start (begin_protocols kernel))))

-- `wifi_begin` from `mac_init` on. The answers of its first two calls are not read.
unfoldable pub begin_driver : Kernel → State Station (Unit {0})
begin_driver kernel = do
  on_boot (sdk kernel SdkCall.mac_init)
  on_boot (sdk kernel SdkCall.esp_wifi_set_rx_pbuf_mem_type)
  checked kernel SdkCall.esp_wifi_init_internal (
      checked kernel SdkCall.esp_supplicant_init (
        checked kernel SdkCall.esp_wifi_set_ps
          (checked kernel SdkCall.esp_wifi_get_mac (begin_addressed kernel))))

-- `wifi_begin`.
unfoldable pub wifi_begin : Kernel → State Station (Unit {0})
wifi_begin kernel =
    checked kernel SdkCall.nvs_flash_init
      (checked kernel SdkCall.esp_event_loop_create_default (begin_driver kernel))

-- `wifi_event_handler`, which acts on one event only; the others are logged.
unfoldable pub wifi_event_handler : Kernel → ℕ → ℕ → State Station (Unit {0})
wifi_event_handler kernel wifi_event_sta_start event_id =
    if event_id == wifi_event_sta_start then checked kernel SdkCall.esp_wifi_connect skip else skip

-- `arp_scanner_init` of components/arp_scanner, which registers `wifi_connect_event`.
unfoldable pub arp_scanner_init : Kernel → State Station (Unit {0})
arp_scanner_init kernel = checked kernel SdkCall.esp_event_handler_register skip
