-- ===== src/Arp/Task.antt =====
-- arp.c: one round of `arp_task`, and `arp_get_mac_addr`, with which the IPv4 task waits for it.
pub mod Dates
pub mod Rounds
use ip.Base.{
  ℕ, leb, if◌then◌else◌, List, [], ◌∷◌, ◌++◌, Option, none, some, State, ◌>>=◌, ◌>>◌, get, modify,
  skip, get_or, length,
}
use ip.Utility.Types.{Ipv4Addr, MacAddr}
use ip.Os.{Env, Call, Timeout, Queue, ArpRequest, ArpEntry}
use ip.Sys.{Sys, CacheRow, tick_count, queue_send, record_call, is_ok}
use ip.Arp.Cache.{get_cached}
use ip.Arp.Pending.{
  max_pending_per_ip, pending_zero, update_pending, find_pending, alloc_pending,
  add_ip_mac_cache_entry, expire,
}
use ip.Arp.Packets.{send_arp_request}

-- `arp_set_local_info`.
unfoldable pub arp_set_local_info : MacAddr → Ipv4Addr → State Sys (Unit {0})
arp_set_local_info mac ip s = (tt, record s { self_mac_addr = mac; self_ip_addr = ip })

-- The request joins a slot, unless that is full; then the task goes on at once.
unfoldable pub join_pending : ℕ → ArpRequest → State Sys (Unit {0})
join_pending i r = do
  s ← get
  if leb max_pending_per_ip (length (get_or s.arp_pending_tasks i pending_zero).waiting_tasks)
      then record_call (Call.notify_give r.task)
      else update_pending i (λ p. record p { waiting_tasks = p.waiting_tasks ++ (r.task ∷ []) })

-- A request that the task receives.
unfoldable pub handle_request : Env → ArpRequest → State Sys (Unit {0})
handle_request env r = do
  s ← get
  elim (find_pending r.ip s.arp_pending_tasks) [
    | some i ↦ join_pending i r
    | none ↦ do
      slot ← alloc_pending env r.ip
      elim slot [
        | none ↦ record_call (Call.notify_give r.task)
        | some i ↦ do
          result ← send_arp_request env r.ip
          if is_ok result then join_pending i r else record_call (Call.notify_give r.task)
      ]
  ]

-- What `xQueueSelectFromSet` and `xQueueReceive` deliver to one round.
pub data ArpEvent : Type 0 where
  no_event : ArpEvent
  got_request : ArpRequest → ArpEvent
  got_reply : ArpEntry → ArpEvent

abbrev pub handle_event : Env → ArpEvent → State Sys (Unit {0})
handle_event env no_event = skip
handle_event env (got_request r) = handle_request env r
handle_event env (got_reply e) = add_ip_mac_cache_entry e

-- The clean-up at the head of each round.
unfoldable pub clean_pending : Env → State Sys (Unit {0})
clean_pending env = do
  now ← tick_count env
  s ← get
  left ← expire now s.arp_pending_tasks
  modify (λ t. record t { arp_pending_tasks = left })

-- One round of `arp_task`.
unfoldable pub arp_task_round : Env → ArpEvent → State Sys (Unit {0})
arp_task_round env e = do clean_pending env; handle_event env e

-- `arp_get_cached_mac_addr`.
unfoldable pub arp_get_cached_mac_addr : Ipv4Addr → State Sys (Option MacAddr)
arp_get_cached_mac_addr ip s = (get_cached ip s.ip_mac_cache, s)

-- `arp_get_mac_addr`, for the task `task`: it hands in a request, waits to be notified, and looks
-- the address up; `none` is ESP_FAIL. While it waits the ARP task changes the table, by `meanwhile`.
unfoldable pub arp_get_mac_addr :
    Env → (List CacheRow → List CacheRow) → ℕ → Ipv4Addr → State Sys (Option MacAddr)
arp_get_mac_addr env meanwhile task ip = do
  queue_send env Queue.arp_request_queue
      (λ b. Call.send_arp_request_queue (record { ip = ip; task = task }) Timeout.max_delay b)
  record_call Call.notify_take
  modify (λ s. record s { ip_mac_cache = meanwhile s.ip_mac_cache })
  arp_get_cached_mac_addr ip
