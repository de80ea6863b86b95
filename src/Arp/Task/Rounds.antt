-- ===== src/Arp/Task/Rounds.antt =====
-- arp.c: whole runs of `arp_task`, and how often each task is let go in them.
use ip.Base.{
  ℕ, ◌+◌, ◌≡◌, refl, arith, true, leb, u32, ◌==◌, if◌then◌else◌, List, [], ◌∷◌, State, ◌>>◌, skip,
}
use ip.Os.{Env, Call}
use ip.Sys.{Sys, Pending}
use ip.Arp.Pending.{expire, notify_all}
use ip.Arp.Pending.Balance.{
  waits, wakes, balance, clean_pending-balance, reply-balance, request-balance,
}
use ip.Arp.Task.Dates.{AllDue, AllLongAgo, Dated, Dated-trans, arp_task_round-Dated}
use ip.Arp.Task.{clean_pending, ArpEvent, no_event, got_request, got_reply, arp_task_round}

-- How often the task asks in an event.
abbrev pub asks : ℕ → ArpEvent → ℕ
asks task (got_request r) = if r.task == task then 1 else 0
asks task _ = 0

-- Whatever a round of the ARP task receives, each task has waited or been let go exactly once
-- more for each request of its own: none is forgotten, and none is woken twice.
pub arp_task_round-balance :
    (env : Env) (e : ArpEvent) (task : ℕ) (s : Sys)
    → balance task (arp_task_round env e s).1 ≡ balance task s + asks task e
unfolding arp_task_round
arp_task_round-balance env no_event task s = omega (arith, clean_pending-balance task env s)
arp_task_round-balance env (got_request r) task s =
    let t = (clean_pending env s).1 in
    omega (arith, clean_pending-balance task env s, request-balance task env r t)
arp_task_round-balance env (got_reply e) task s =
    let t = (clean_pending env s).1 in
    omega (arith, clean_pending-balance task env s, reply-balance task e t)

-- Rounds with these events.
unfoldable pub arp_task_rounds : Env → List ArpEvent → State Sys (Unit {0})
arp_task_rounds env [] = skip
arp_task_rounds env (e ∷ es) = do arp_task_round env e; arp_task_rounds env es

abbrev pub asks_in : ℕ → List ArpEvent → ℕ
asks_in task [] = 0
asks_in task (e ∷ es) = asks task e + asks_in task es

arp_task_rounds-balance :
    (env : Env) (es : List ArpEvent) (task : ℕ) (s : Sys)
    → balance task (arp_task_rounds env es s).1 ≡ balance task s + asks_in task es
unfolding arp_task_rounds
arp_task_rounds-balance env [] task s = omega arith
arp_task_rounds-balance env (e ∷ es) task s =
    let t = (arp_task_round env e s).1 in
    omega (arith, arp_task_round-balance env e task s, arp_task_rounds-balance env es task t)

arp_task_rounds-Dated :
    (env : Env) (bound : ℕ) (es : List ArpEvent) (s : Sys)
    → Dated env bound s (arp_task_rounds env es s).1
unfolding arp_task_rounds
arp_task_rounds-Dated env bound [] s = record { earlier = λ h. h; due = λ h d. d }
arp_task_rounds-Dated env bound (e ∷ es) s =
    Dated-trans env bound (arp_task_round-Dated env bound e s)
      (arp_task_rounds-Dated env bound es (arp_task_round env e s).1)

-- When the time of every slot has come, nobody waits any more.
expire-waits :
    (task now : ℕ) (ps : List Pending) (s : Sys)
    → AllDue now ps
    → waits task (expire now ps s).0 ≡ 0
unfolding expire
expire-waits task now [] s due = refl
expire-waits task now (p ∷ ps) s (late, due) =
    let come : leb p.expiration_tick now ≡ true = ground arith in
    rw come (omega (arith, expire-waits task now ps (notify_all p.waiting_tasks s).1 due))

clean_pending-waits :
    (env : Env) (task : ℕ) (s : Sys)
    → AllDue (u32 (env.ticks_now s.log)) s.arp_pending_tasks
    → waits task (clean_pending env s).1.arp_pending_tasks ≡ 0
unfolding clean_pending
clean_pending-waits env task s due =
    let now = u32 (env.ticks_now s.log) in
    expire-waits task now s.arp_pending_tasks (record s { log = Call.tick_count now ∷ s.log }) due

-- If after a run of the ARP task the time of the slots that were there before has come, and all
-- ticks were read at least a second ago, by a counter that has not wrapped since, and the next
-- round receives nothing, then each task has been let go exactly once for each request of its own
-- in the run, whether a reply came or not, besides the times that it waited or had been let go
-- before the run.
pub requests_answered :
    (env : Env) (es : List ArpEvent) (task : ℕ) (s : Sys)
    → let t = (arp_task_rounds env es s).1 in
      let now = u32 (env.ticks_now t.log) in
      AllDue now s.arp_pending_tasks
      → AllLongAgo env now t.log
      → wakes task (arp_task_round env no_event t).1.log ≡ balance task s + asks_in task es
unfolding arp_task_round
requests_answered env es task s due ago =
    let t = (arp_task_rounds env es s).1 in
    let now = u32 (env.ticks_now t.log) in
    let come = (arp_task_rounds-Dated env now es s).due ago due in
    omega (
      arith,
      arp_task_rounds-balance env es task s,
      clean_pending-balance task env t,
      clean_pending-waits env task t come,
    )
