-- ===== src/Startup/Init/Tcp.antt =====
-- What the answer of init_tcp says.
use ip.Base.{ℕ, ◌≡◌, refl, ◌∷◌, arith, Bool, true, false, Bool-cases, inl, inr, List}
use ip.Os.{Err}
use ip.Startup.Kernel.{Handle, Task, Kernel, Boot, BootCall, mark, same_handle}
use ip.Startup.Init.{ensure_in, ensure_set, init_tcp}
use ip.Startup.Init.Queues.{HasQueues, Served}
use ip.Startup.Init.Served.{Serves, init_tcp-Serves}

init_tcp-started :
    (kernel : Kernel) (b : Boot)
    → (init_tcp kernel b).0 ≡ Err.esp_ok
    → (init_tcp kernel b).1.started Task.tcp_task ≡ true
unfolding init_tcp mark
init_tcp-started kernel b = elim (Bool-cases sends.0) [
  | inr full ↦ rw full (λ e. ground arith)
  | inl first ↦ rw first (elim (Bool-cases inputs.0) [
    | inr full ↦ rw full (λ e. ground arith)
    | inl second ↦ rw second (elim (Bool-cases cmds.0) [
      | inr full ↦ rw full (λ e. ground arith)
      | inl third ↦ rw third (elim (Bool-cases (kernel.task_new cmds.1.calls Task.tcp_task)) [
        | inr full ↦ rw full (λ e. ground arith)
        | inl started ↦ rw started (λ e. refl)
      ])
    ])
  ])
]
  where
    sends : Bool × Boot
    sends =
        ensure_in kernel Handle.tcp_send_queue 8 Handle.tcp_task_queue_set
          (ensure_set kernel Handle.tcp_task_queue_set 20 b).1

    inputs : Bool × Boot
    inputs = ensure_in kernel Handle.tcp_input_queue 8 Handle.tcp_task_queue_set sends.1

    cmds : Bool × Boot
    cmds = ensure_in kernel Handle.port_cmd_queue 4 Handle.tcp_task_queue_set inputs.1

-- When init_tcp answers ESP_OK, the task runs and has its queues, if that held of the tasks before.
pub init_tcp_ok :
    (kernel : Kernel) (b : Boot)
    → Served b
    → (init_tcp kernel b).0 ≡ Err.esp_ok
    → ((init_tcp kernel b).1.started Task.tcp_task ≡ true)
      × HasQueues Task.tcp_task (init_tcp kernel b).1
unfolding Served Serves
init_tcp_ok kernel b served ok =
    let runs = init_tcp-started kernel b ok in
    (runs, init_tcp-Serves kernel b served tt Task.tcp_task runs)

-- A queue that is not there yet, when it is granted.
new_queue :
    (kernel : Kernel) (h : Handle) (len : ℕ) (set : Handle) (b : Boot)
    → b.created h ≡ false
    → kernel.handle_new b.calls h ≡ true
    → ensure_in kernel h len set b ≡ (
      true,
      record b {
        created = mark true (same_handle h) b.created;
        calls = BootCall.add_to_set h set ∷ BootCall.create_queue h len true ∷ b.calls;
      },
    )
unfolding ensure_in
new_queue kernel h len set b missing ok = rw (missing, ok)

-- When nothing has been created yet and the kernel grants everything but the set of queues,
-- init_tcp answers ESP_OK and starts the task, which has no set to wait on.
pub init_tcp_without_set :
    (kernel : Kernel) (b : Boot)
    → ((h : Handle) → b.created h ≡ false)
    → ((calls : List BootCall) → kernel.handle_new calls Handle.tcp_task_queue_set ≡ false)
    → ((calls : List BootCall) (h : Handle)
        → same_handle h Handle.tcp_task_queue_set ≡ false
        → kernel.handle_new calls h ≡ true)
    → ((calls : List BootCall) → kernel.task_new calls Task.tcp_task ≡ true)
    → ((init_tcp kernel b).0 ≡ Err.esp_ok)
      × ((init_tcp kernel b).1.started Task.tcp_task ≡ true)
      × ((init_tcp kernel b).1.created Handle.tcp_task_queue_set ≡ false)
unfolding init_tcp ensure_set mark
init_tcp_without_set kernel b fresh denied granted task =
    rw
      (
        fresh Handle.tcp_task_queue_set,
        denied b.calls,
        new_queue kernel Handle.tcp_send_queue 8 set b0 (fresh Handle.tcp_send_queue)
            (granted b0.calls Handle.tcp_send_queue refl),
        new_queue kernel Handle.tcp_input_queue 8 set b1 (fresh Handle.tcp_input_queue)
            (granted b1.calls Handle.tcp_input_queue refl),
        new_queue kernel Handle.port_cmd_queue 4 set b2 (fresh Handle.port_cmd_queue)
            (granted b2.calls Handle.port_cmd_queue refl),
        task (made Handle.port_cmd_queue 4 b2).calls,
      )
      (refl, refl, fresh set)
  where
    set : Handle
    set = Handle.tcp_task_queue_set

    b0 : Boot
    b0 = record b {
      created = mark false (same_handle set) b.created;
      calls = BootCall.create_set set 20 false ∷ b.calls;
    }

    made : Handle → ℕ → Boot → Boot
    made h len c = record c {
      created = mark true (same_handle h) c.created;
      calls = BootCall.add_to_set h set ∷ BootCall.create_queue h len true ∷ c.calls;
    }

    b1 : Boot
    b1 = made Handle.tcp_send_queue 8 b0

    b2 : Boot
    b2 = made Handle.tcp_input_queue 8 b1
