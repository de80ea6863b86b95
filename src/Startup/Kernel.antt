-- ===== src/Startup/Kernel.antt =====
-- What start-up asks of FreeRTOS and of the SDK, neither of which is in this repository.
use ip.Base.{ℕ, Bool, true, ◌==◌, if◌then◌else◌, List, ◌∷◌, State}
use ip.Utility.Types.{MacAddr}
use ip.Os.{Err}

-- The handles of the queues and of the queue sets, all of them globals that start as NULL.
pub data Handle : Type 0 where
  arp_request_queue arp_input_queue arp_queue_set ipv4_transmit_queue : Handle
  tcp_send_queue tcp_input_queue port_cmd_queue tcp_task_queue_set : Handle
  udp_port_queue udp_send_queue udp_task_queue_set rx_buffer_free_queue : Handle

abbrev index : Handle → ℕ
index Handle.arp_request_queue = 0
index Handle.arp_input_queue = 1
index Handle.arp_queue_set = 2
index Handle.ipv4_transmit_queue = 3
index Handle.tcp_send_queue = 4
index Handle.tcp_input_queue = 5
index Handle.port_cmd_queue = 6
index Handle.tcp_task_queue_set = 7
index Handle.udp_port_queue = 8
index Handle.udp_send_queue = 9
index Handle.udp_task_queue_set = 10
index Handle.rx_buffer_free_queue = 11

abbrev pub same_handle : Handle → Handle → Bool
same_handle h k = index h == index k

pub data Task : Type 0 where
  arp_task ipv4_task tcp_task udp_task : Task

abbrev pub task_index : Task → ℕ
task_index Task.arp_task = 0
task_index Task.ipv4_task = 1
task_index Task.tcp_task = 2
task_index Task.udp_task = 3

abbrev pub same_task : Task → Task → Bool
same_task t u = task_index t == task_index u

-- The calls of the SDK that wifi_begin and the event handler make, in their order.
pub data SdkCall : Type 0 where
  nvs_flash_init esp_event_loop_create_default mac_init esp_wifi_set_rx_pbuf_mem_type : SdkCall
  esp_wifi_init_internal esp_supplicant_init esp_wifi_set_ps esp_wifi_get_mac : SdkCall
  esp_wifi_set_mode esp_wifi_set_config esp_event_handler_register esp_wifi_start : SdkCall
  esp_wifi_connect : SdkCall

-- A call with its answer; a queue or a set by its length, a task by the size of its stack.
pub data BootCall : Type 0 where
  create_queue : Handle → ℕ → Bool → BootCall
  create_set : Handle → ℕ → Bool → BootCall
  add_to_set : Handle → Handle → BootCall
  create_task : Task → ℕ → Bool → BootCall
  sdk_call : SdkCall → Err → BootCall

-- The answers, from the calls so far. `mac` is what `esp_wifi_get_mac` fills in.
pub record Kernel : Type 0 where
  pub handle_new : List BootCall → Handle → Bool
  pub task_new : List BootCall → Task → Bool
  pub sdk_result : List BootCall → SdkCall → Err
  pub mac : MacAddr

-- Which handles are not NULL, which tasks run, and the calls, newest first.
pub record Boot : Type 0 where
  pub created : Handle → Bool
  pub started : Task → Bool
  pub calls : List BootCall

-- If the call succeeded, what it made is there from now on.
unfoldable pub mark : {A : Type 0} → Bool → (A → Bool) → (A → Bool) → A → Bool
mark ok is_new there a = if ok then (if is_new a then true else there a) else there a

module _ (kernel : Kernel) where
  -- `xQueueCreate` and `xQueueCreateSet`, whose answer goes to the handle.
  abbrev pub queue_create : Handle → ℕ → State Boot Bool
  queue_create h len b =
      let ok = kernel.handle_new b.calls h in
      (
        ok,
        record b {
          created = mark ok (same_handle h) b.created;
          calls = BootCall.create_queue h len ok ∷ b.calls;
        },
      )

  abbrev pub queue_create_set : Handle → ℕ → State Boot Bool
  queue_create_set h len b =
      let ok = kernel.handle_new b.calls h in
      (
        ok,
        record b {
          created = mark ok (same_handle h) b.created;
          calls = BootCall.create_set h len ok ∷ b.calls;
        },
      )

  -- `xTaskCreate`.
  abbrev pub task_create : Task → ℕ → State Boot Bool
  task_create t stack b =
      let ok = kernel.task_new b.calls t in
      (
        ok,
        record b {
          started = mark ok (same_task t) b.started;
          calls = BootCall.create_task t stack ok ∷ b.calls;
        },
      )

  abbrev pub sdk : SdkCall → State Boot Err
  sdk c b =
      let r = kernel.sdk_result b.calls c in
      (r, record b { calls = BootCall.sdk_call c r ∷ b.calls })

-- `xQueueAddToSet`, whose answer the program does not read.
abbrev pub queue_add_to_set : Handle → Handle → State Boot (Unit {0})
queue_add_to_set q set b = (tt, record b { calls = BootCall.add_to_set q set ∷ b.calls })
