-- ===== src/Monitor/Answer.antt =====
-- What task_monitor.c does with a report: it is built in a block of its own, and the array of the
-- tasks is freed.
use ip.Base.{
  ℕ, ◌+◌, ◌*◌, ◌<◌, ◌≡◌, ap, ◌∙◌, List, ◌∷◌, ◌++◌, Option, State, return, none, some, u32, length,
}
use ip.Os.{Env, Call, Log, Buf}
use ip.Sys.{Sys}
use ip.Monitor.{
  TaskStatus, Scheduler, Monitor, report_header, report_size, report_on, task_monitor_build_report,
  on_task_monitor_tcp_receive,
}
use ip.Monitor.Printing.{AreTasks, report_lines, print_report_lem}

-- The log once the array for the tasks has been asked for.
abbrev pub asked : Scheduler → Option ℕ → Sys → Log
asked scheduler answer s =
    Call.malloc (u32 ((scheduler.number_of_tasks s.log + 4) * scheduler.status_size)) answer ∷ s.log

abbrev pub tasks_found : Scheduler → ℕ → Sys → List TaskStatus
tasks_found scheduler b s =
    scheduler.system_state (asked scheduler (some b) s) (scheduler.number_of_tasks s.log + 4)

report_on-granted :
    (env : Env) (names : Option (List (List ℕ))) (b a : ℕ) (tasks : List TaskStatus) (s : Sys)
    → env.malloc_at s.log (report_size tasks) ≡ some a
    → AreTasks tasks
    → length tasks < 16777216
    → report_on env names b tasks s ≡ (
      some (record { addr = a; bytes = report_header ++ report_lines names tasks }),
      record s { log = Call.free b ∷ Call.malloc (report_size tasks) (some a) ∷ s.log },
    )
unfolding report_on
report_on-granted env names b a tasks s granted known few =
    rw (granted, (print_report_lem names tasks known few).0)

-- When there is memory for it and the scheduler finds tasks with names of less than 30 characters
-- and stacks below 4 GB, less than 16777216 of them, task_monitor_build_report returns the header
-- and a line for each watched task in a block of its own, and frees the array of the tasks.
pub report_built :
    (env : Env) (scheduler : Scheduler) (names : Option (List (List ℕ))) (s : Sys) (b a : ℕ)
    → env.malloc_at s.log (u32 ((scheduler.number_of_tasks s.log + 4) * scheduler.status_size))
      ≡ some b
    → env.malloc_at (asked scheduler (some b) s) (report_size (tasks_found scheduler b s)) ≡ some a
    → AreTasks (tasks_found scheduler b s)
    → length (tasks_found scheduler b s) < 16777216
    → task_monitor_build_report env scheduler names s ≡ (
      some (record {
        addr = a;
        bytes = report_header ++ report_lines names (tasks_found scheduler b s);
      }),
      record s {
        log =
            Call.free b
            ∷ Call.malloc (report_size (tasks_found scheduler b s)) (some a)
            ∷ asked scheduler (some b) s;
      },
    )
unfolding task_monitor_build_report
report_built env scheduler names s b a first second known few =
    ap with_answer first
    ∙ report_on-granted env names b a (tasks_found scheduler b s)
        (record s { log = asked scheduler (some b) s }) second known few
  where
    with_answer : Option ℕ → Option Buf × Sys
    with_answer o =
        let t : Sys = record s { log = asked scheduler o s } in
        let step : State Sys (Option Buf) = elim o [
          | none ↦ return none
          | some b ↦
              report_on env names b
                (scheduler.system_state t.log (scheduler.number_of_tasks s.log + 4))
        ] in
        step t

-- When there is no memory for the array of the tasks, the callback of the monitor reads through
-- NULL.
pub receive_without_memory-faults :
    (env : Env) (scheduler : Scheduler) (received : List ℕ) (len : ℕ) (m : Monitor)
    → env.malloc_at m.net.log
        (u32 ((scheduler.number_of_tasks m.net.log + 4) * scheduler.status_size))
      ≡ none
    → (on_task_monitor_tcp_receive env scheduler received len m).1.net.log
      ≡ Call.fault ∷ asked scheduler none m.net
unfolding on_task_monitor_tcp_receive task_monitor_build_report
receive_without_memory-faults env scheduler received len m full = rw full
