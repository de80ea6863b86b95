-- ===== src/Startup/Init.antt =====
-- The init functions of arp.c, ipv4.c, tcp.c and udp.c.
pub mod Queues
pub mod Ready
pub mod Served
pub mod Tcp
use ip.Base.{
  ℕ, Bool, true, false, if◌then◌else◌, State, return_unless, ◌>>=◌, ◌>>◌, return, get, skip,
}
use ip.Os.{Err}
use ip.Startup.Kernel.{
  Handle, Task, Kernel, Boot, queue_create, queue_create_set, task_create, queue_add_to_set,
}

-- A queue that is NULL is created and added to a set of queues; `false` if there is no memory.
unfoldable pub ensure_in : Kernel → Handle → ℕ → Handle → State Boot Bool
ensure_in kernel h len set = do
  b ← get
  if b.created h then return true else (do
    ok ← queue_create kernel h len
    return_unless ok false (do queue_add_to_set h set; return true))

-- A queue that is NULL is created.
unfoldable pub ensure : Kernel → Handle → ℕ → State Boot Bool
ensure kernel h len = do b ← get; if b.created h then return true else queue_create kernel h len

-- A set of queues that is NULL is created; nothing looks at what comes of it.
unfoldable pub ensure_set : Kernel → Handle → ℕ → State Boot (Unit {0})
ensure_set kernel h len = do
  b ← get
  if b.created h then skip else (do queue_create_set kernel h len; skip)

-- `init_tcp`.
unfoldable pub init_tcp : Kernel → State Boot Err
init_tcp kernel = do
  ensure_set kernel Handle.tcp_task_queue_set 20
  sends ← ensure_in kernel Handle.tcp_send_queue 8 Handle.tcp_task_queue_set
  return_unless sends Err.esp_err_no_mem (do
    inputs ← ensure_in kernel Handle.tcp_input_queue 8 Handle.tcp_task_queue_set
    return_unless inputs Err.esp_err_no_mem (do
      cmds ← ensure_in kernel Handle.port_cmd_queue 4 Handle.tcp_task_queue_set
      return_unless cmds Err.esp_err_no_mem (do
        started ← task_create kernel Task.tcp_task 3000
        return_unless started Err.esp_err_no_mem (return Err.esp_ok))))

-- `udp_init`.
unfoldable pub udp_init : Kernel → State Boot (Unit {0})
udp_init kernel = do
  ensure_set kernel Handle.udp_task_queue_set 8
  ports ← ensure_in kernel Handle.udp_port_queue 4 Handle.udp_task_queue_set
  return_unless ports tt (do
    sends ← ensure_in kernel Handle.udp_send_queue 8 Handle.udp_task_queue_set
    return_unless sends tt (do task_create kernel Task.udp_task 800; skip))

-- `ipv4_init`, which does not read what `init_tcp` returns.
unfoldable pub ipv4_init : Kernel → State Boot (Unit {0})
ipv4_init kernel = do
  queue ← ensure kernel Handle.ipv4_transmit_queue 4
  return_unless queue tt (do
    started ← task_create kernel Task.ipv4_task 1500
    return_unless started tt (do init_tcp kernel; skip))

-- The set of `arp_init`, with both queues in it.
unfoldable pub ensure_arp_set : Kernel → State Boot Bool
ensure_arp_set kernel = do
  b ← get
  if b.created Handle.arp_queue_set then return true else (do
    ok ← queue_create_set kernel Handle.arp_queue_set 8
    return_unless ok false (do
      queue_add_to_set Handle.arp_request_queue Handle.arp_queue_set
      queue_add_to_set Handle.arp_input_queue Handle.arp_queue_set
      return true))

-- `arp_init`.
unfoldable pub arp_init : Kernel → State Boot (Unit {0})
arp_init kernel = do
  requests ← ensure kernel Handle.arp_request_queue 4
  return_unless requests tt (do
    inputs ← ensure kernel Handle.arp_input_queue 4
    return_unless inputs tt (do
      set ← ensure_arp_set kernel
      return_unless set tt (do task_create kernel Task.arp_task 1600; skip)))
