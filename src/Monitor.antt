-- ===== src/Monitor.antt =====
-- components/task_monitor/src/task_monitor.c: a report on the tasks, and its TCP server.
pub mod Printing
pub mod Answer
use ip.Base.{
  ℕ, ◌+◌, ◌-◌, ◌*◌, ◌==◌, ◌&&◌, ltb, if◌then◌else◌, Bool, true, false, List, [], ◌∷◌, ◌++◌, Option,
  none, some, State, ◌>>=◌, ◌>>◌, return, get, modify, skip, u16, u32, take, length,
}
use ip.Utility.Types.{Ipv4Addr}
use ip.Utility.Print.{codes, dec, pad_left, pad_right}
use ip.Os.{Buf, Env, Call, Timeout, Err, Callbacks, Log}
use ip.Sys.{Sys, malloc, fault, record_call}
use ip.Tcp.Send.{tcp_send}
use ip.Tcp.Commands.{tcp_listen_port}

-- What the code reads of `TaskStatus_t`.
pub record TaskStatus : Type 0 where
  pub name : List ℕ
  pub stack_high_water_mark : ℕ

-- The scheduler, which is not in this repository: `uxTaskGetNumberOfTasks`, `uxTaskGetSystemState`
-- for an array of so many entries, and the size of an entry.
pub record Scheduler : Type 0 where
  pub number_of_tasks : Log → ℕ
  pub system_state : Log → ℕ → List TaskStatus
  pub status_size : ℕ

-- `strcmp(a, b) == 0`.
unfoldable pub same_name : List ℕ → List ℕ → Bool
same_name [] [] = true
same_name [] (d ∷ t) = false
same_name (c ∷ s) [] = false
same_name (c ∷ s) (d ∷ t) = c == d && same_name s t

-- `name_in_filter`; the names without the NULL that ends the array.
unfoldable pub name_in_filter : List ℕ → List (List ℕ) → Bool
name_in_filter name [] = false
name_in_filter name (n ∷ names) = if same_name name n then true else name_in_filter name names

-- The test of the loop: no filter, or a name that is in it.
abbrev pub is_watched : Option (List (List ℕ)) → List ℕ → Bool
is_watched none name = true
is_watched (some names) name = name_in_filter name names

-- The text in `out`, the `pos` behind it, and whether anything was written past the end of `out`.
pub record Report : Type 0 where
  pub text : List ℕ
  pub pos : ℕ
  pub overrun : Bool

-- `pos += snprintf(out + pos, out_size - pos, ...)`: it writes what there is room for with a 0 behind
-- it, and returns how long the text is. Past the end, `out_size - pos` wraps to a huge room.
unfoldable pub print_at : ℕ → List ℕ → Report → Report
print_at out_size line r =
    if ltb out_size r.pos
    then record r { overrun = true }
    else record r { text = r.text ++ take (out_size - r.pos - 1) line; pos = r.pos + length line }

-- `"--- task stack watermarks ---\n"`.
unfoldable pub report_header : List ℕ
report_header = codes "--- task stack watermarks ---" ++ (10 ∷ [])

-- `"  %-16s  hwm: %5u bytes\n"`: the configuration leaves out run time statistics.
unfoldable pub report_line : TaskStatus → List ℕ
report_line t =
    codes "  "
    ++ (pad_right 16 t.name
        ++ (codes "  hwm: "
            ++ (pad_left 5 (dec t.stack_high_water_mark) ++ (codes " bytes" ++ (10 ∷ [])))))

-- The loop over the tasks.
unfoldable pub print_tasks : ℕ → Option (List (List ℕ)) → List TaskStatus → Report → Report
print_tasks out_size names [] r = r
print_tasks out_size names (t ∷ ts) r =
    print_tasks out_size names ts
      (if is_watched names t.name then print_at out_size (report_line t) r else r)

abbrev pub report_size : List TaskStatus → ℕ
report_size tasks = u32 (32 + length tasks * 56 + 1)

-- The report on the tasks that `uxTaskGetSystemState` has found, in a block of that size.
unfoldable pub print_report : Option (List (List ℕ)) → List TaskStatus → Report
print_report names tasks =
    print_tasks (report_size tasks) names tasks
      (print_at (report_size tasks) report_header (record { text = []; pos = 0; overrun = false }))

-- `task_monitor_build_report` from the allocation of the text on; the array of the tasks is at `buf`.
unfoldable pub report_on :
    Env → Option (List (List ℕ)) → ℕ → List TaskStatus → State Sys (Option Buf)
report_on env names buf tasks = do
  out ← malloc env (report_size tasks)
  elim out [
    | none ↦ do record_call (Call.free buf); return none
    | some a ↦ if (print_report names tasks).overrun then (do fault; return none) else (do
      record_call (Call.free buf)
      return (some (record { addr = a; bytes = (print_report names tasks).text })))
  ]

-- `task_monitor_build_report`; the text in the block, without the 0 that ends it.
unfoldable pub task_monitor_build_report :
    Env → Scheduler → Option (List (List ℕ)) → State Sys (Option Buf)
task_monitor_build_report env scheduler names = do
  s ← get
  let max_tasks = scheduler.number_of_tasks s.log + 4
  buf ← malloc env (u32 (max_tasks * scheduler.status_size))
  t ← get
  elim buf [
    | none ↦ return none
    | some b ↦ report_on env names b (scheduler.system_state t.log max_tasks)
  ]

-- The globals of task_monitor.c, beside those of the network stack.
pub record Monitor : Type 0 where
  pub net : Sys
  pub watched_names : Option (List (List ℕ))
  pub other_port_num : ℕ
  pub other_ipv4_addr : Ipv4Addr

-- A call of the network stack from the monitor.
abbrev pub on_net : {A : Type 0} → State Sys A → State Monitor A
on_net step m = let (a, s) = step m.net in (a, record m { net = s })

-- `TASK_MONITOR_PORT`.
abbrev pub task_monitor_port : ℕ
task_monitor_port = 10741

-- `on_task_monitor_tcp_connect`.
unfoldable pub on_task_monitor_tcp_connect : ℕ → Ipv4Addr → State Monitor (Unit {0})
on_task_monitor_tcp_connect new_other_port_num new_other_ipv4_addr m =
    (tt, record m { other_port_num = new_other_port_num; other_ipv4_addr = new_other_ipv4_addr })

-- `on_task_monitor_tcp_receive`, which looks at no data: `strlen` of a report that could not be built
-- reads through NULL. It runs in the TCP task and does not wait.
unfoldable pub on_task_monitor_tcp_receive : Env → Scheduler → List ℕ → ℕ → State Monitor (Unit {0})
on_task_monitor_tcp_receive env scheduler received data_len = do
  m ← get
  report ← on_net (task_monitor_build_report env scheduler m.watched_names)
  elim report [
    | none ↦ on_net fault
    | some r ↦ do
      on_net (
          tcp_send env (λ ps. ps) task_monitor_port m.other_port_num m.other_ipv4_addr (some r)
            (u16 (length r.bytes)) Timeout.no_wait)
      skip
  ]

-- The callbacks of the monitor, by numbers that stand for its functions.
abbrev pub monitor_callbacks : Callbacks
monitor_callbacks = record { on_receive = some 11; on_connect = some 12; on_disconnect = some 13 }

-- `start_task_monitor_tcp`, which is also the callback for the end of a connection.
unfoldable pub start_task_monitor_tcp : Env → State Sys (Unit {0})
start_task_monitor_tcp env = do tcp_listen_port env task_monitor_port monitor_callbacks; skip

-- `task_monitor_init`.
unfoldable pub task_monitor_init : Env → Option (List (List ℕ)) → State Monitor (Unit {0})
task_monitor_init env names = do
  modify (λ n. record n { watched_names = names })
  on_net (start_task_monitor_tcp env)
