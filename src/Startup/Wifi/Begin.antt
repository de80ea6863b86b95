-- ===== src/Startup/Wifi/Begin.antt =====
-- What has been done by the time that frames are handed to wifi_rxcb.
use ip.Base.{◌≡◌, refl, ◌∷◌, arith, Bool, true, false, Bool-cases, inl, inr, State}
use ip.Utility.Types.{NetContext}
use ip.Sys.{Sys, is_ok}
use ip.Arp.Task.{arp_set_local_info}
use ip.Ipv4.Transmit.{ipv4_set_self_net_context}
use ip.Icmp.{icmpv4_set_self_net_context}
use ip.Startup.Kernel.{Handle, SdkCall, Kernel, Boot, BootCall, mark, same_handle, sdk}
use ip.Startup.Init.{arp_init, ipv4_init}
use ip.Startup.Init.Ready.{mark_self, mark_keeps}
use ip.Startup.Init.Queues.{Served, Served-Grows}
use ip.Startup.Init.Served.{Serves, arp_init-Serves, ipv4_init-Serves}
use ip.Startup.Wifi.{
  Station, on_boot, on_stack, checked, net_context, begin_protocols, set_addresses, begin_addressed,
  begin_driver, wifi_begin,
}

-- The addresses of the protocols are those of the station.
abbrev pub Addressed : NetContext → Sys → Type 0
Addressed context s =
    (s.self_net ≡ context) × (s.self_mac_addr ≡ context.mac) × (s.self_ip_addr ≡ context.ip)

-- While the station starts, before and after it has told the protocols their addresses.
Starting : Station → Type 0
Starting m = (m.rx_callback ≡ false) × Served m.boot

Informed : NetContext → Station → Type 0
Informed context m = Starting m × Addressed context m.net

-- If frames come in, the protocols know their addresses, the queue for the buffers exists, and the
-- tasks have their queues.
pub Open : NetContext → Station → Type 0
Open context m =
    m.rx_callback ≡ true
    → Addressed context m.net × (m.boot.created Handle.rx_buffer_free_queue ≡ true) × Served m.boot

sdk-Served : (kernel : Kernel) (c : SdkCall) (b : Boot) → Served b → Served (sdk kernel c b).1
sdk-Served kernel c b = Served-Grows b (sdk kernel c b).1 (λ k has. has) refl

sdk-Starting :
    (kernel : Kernel) (c : SdkCall) (m : Station)
    → Starting m
    → Starting (on_boot (sdk kernel c) m).1
unfolding Starting
sdk-Starting kernel c m (closed, served) = (closed, sdk-Served kernel c m.boot served)

sdk-Informed :
    (kernel : Kernel) (context : NetContext) (c : SdkCall) (m : Station)
    → Informed context m
    → Informed context (on_boot (sdk kernel c) m).1
unfolding Informed
sdk-Informed kernel context c m (starting, known) = (sdk-Starting kernel c m starting, known)

-- A check, in front of steps that end well.
checked-Open :
    (kernel : Kernel) (context : NetContext) (P : Station → Type 0) (c : SdkCall)
    (rest : State Station (Unit {0}))
    → ((m : Station) → P m → P (on_boot (sdk kernel c) m).1)
    → ((m : Station) → P m → m.rx_callback ≡ false)
    → ((m : Station) → P m → Open context (rest m).1)
    → (m : Station) → P m
    → Open context (checked kernel c rest m).1
unfolding checked Open
checked-Open kernel context P c rest keeps closed then m holds =
    elim (Bool-cases (is_ok (kernel.sdk_result m.boot.calls c))) [
      | inl ok ↦ rw ok (then (on_boot (sdk kernel c) m).1 (keeps m holds))
      | inr failed ↦ rw (failed, closed m holds) (λ e. ground arith)
    ]

-- The creation of a queue starts no task.
created-Served :
    (ok : Bool) (h : Handle) (c : BootCall) (b : Boot)
    → Served b
    → Served (record b { created = mark ok (same_handle h) b.created; calls = c ∷ b.calls })
created-Served ok h c b =
    Served-Grows b (record b { created = mark ok (same_handle h) b.created; calls = c ∷ b.calls })
      (λ k has. mark_keeps ok (same_handle h) b.created k has) refl

begin_protocols-Open :
    (kernel : Kernel) (context : NetContext) (m : Station)
    → Informed context m
    → Open context (begin_protocols kernel m).1
unfolding begin_protocols Open Informed Starting Serves
begin_protocols-Open kernel context m ((closed, served), known) =
    elim (Bool-cases (kernel.handle_new b.calls Handle.rx_buffer_free_queue)) [
      | inl ok ↦ rw ok (λ e. (
        known,
        mark_self Handle.rx_buffer_free_queue b.created,
        created-Served true Handle.rx_buffer_free_queue
            (BootCall.create_queue Handle.rx_buffer_free_queue 16 true) b ready,
      ))
      | inr full ↦ rw (full, closed) (λ e. ground arith)
    ]
  where
    b : Boot
    b = (ipv4_init kernel (arp_init kernel m.boot).1).1

    ready : Served b
    ready =
        ipv4_init-Serves kernel (arp_init kernel m.boot).1 (arp_init-Serves kernel m.boot served tt)
          tt

Starting-check :
    (kernel : Kernel) (context : NetContext) (c : SdkCall) (rest : State Station (Unit {0}))
    → ((m : Station) → Starting m → Open context (rest m).1)
    → (m : Station) → Starting m
    → Open context (checked kernel c rest m).1
unfolding Starting
Starting-check kernel context c rest =
    checked-Open kernel context Starting c rest (sdk-Starting kernel c) (λ m s. s.0)

Informed-check :
    (kernel : Kernel) (context : NetContext) (c : SdkCall) (rest : State Station (Unit {0}))
    → ((m : Station) → Informed context m → Open context (rest m).1)
    → (m : Station) → Informed context m
    → Open context (checked kernel c rest m).1
unfolding Informed Starting
Informed-check kernel context c rest =
    checked-Open kernel context (Informed context) c rest (sdk-Informed kernel context c)
      (λ m s. s.0.0)

begin_addressed-Open :
    (kernel : Kernel) (m : Station)
    → Starting m
    → Open (net_context kernel) (begin_addressed kernel m).1
unfolding begin_addressed set_addresses arp_set_local_info ipv4_set_self_net_context
    icmpv4_set_self_net_context Informed Starting
begin_addressed-Open kernel m starting =
    let context = net_context kernel in
    Informed-check kernel context SdkCall.esp_wifi_set_mode _
      (Informed-check kernel context SdkCall.esp_wifi_set_config _ (
        Informed-check kernel context SdkCall.esp_event_handler_register _ (
          Informed-check kernel context SdkCall.esp_wifi_start _
            (begin_protocols-Open kernel context))))
      (on_stack (set_addresses context) m).1 (starting, (refl, refl, refl))

begin_driver-Open :
    (kernel : Kernel) (m : Station)
    → Starting m
    → Open (net_context kernel) (begin_driver kernel m).1
unfolding begin_driver
begin_driver-Open kernel m starting =
    let context = net_context kernel in
    Starting-check kernel context SdkCall.esp_wifi_init_internal _
      (Starting-check kernel context SdkCall.esp_supplicant_init _ (
        Starting-check kernel context SdkCall.esp_wifi_set_ps _
          (Starting-check kernel context SdkCall.esp_wifi_get_mac _ (begin_addressed-Open kernel))))
      _
      (sdk-Starting kernel SdkCall.esp_wifi_set_rx_pbuf_mem_type _
        (sdk-Starting kernel SdkCall.mac_init m starting))

-- Whatever the kernel grants, if wifi_begin lets frames in, then the protocols know their
-- addresses, the queue for the buffers exists, and no task runs without its queues, if that held
-- before.
pub wifi_begin-Open :
    (kernel : Kernel) (m : Station)
    → m.rx_callback ≡ false
    → Served m.boot
    → Open (net_context kernel) (wifi_begin kernel m).1
unfolding wifi_begin Starting
wifi_begin-Open kernel m closed served =
    Starting-check kernel (net_context kernel) SdkCall.nvs_flash_init _
      (Starting-check kernel (net_context kernel) SdkCall.esp_event_loop_create_default _
        (begin_driver-Open kernel))
      m (closed, served)
