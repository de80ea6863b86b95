-- ===== src/Arp/Pending.antt =====
-- arp.c: the table `arp_pending_tasks` of requests that wait for a reply. A slot is free while no
-- task waits in it; a `struct arp_pending_t*` is the slot's index.
pub mod Requests
pub mod Balance
use ip.Base.{
  ℕ, zero, suc, ◌+◌, Bool, true, false, ◌&&◌, not, leb, if◌then◌else◌, List, [], ◌∷◌, ◌++◌, Option,
  none, some, State, ◌>>=◌, ◌>>◌, return, get, modify, skip, get_or, set, u32, search_from,
}
use ip.Utility.Types.{Ipv4Addr, ip_eq, ip_zero}
use ip.Os.{Env, Call, ArpEntry}
use ip.Sys.{Sys, Pending, tick_count, record_call}
use ip.Arp.Cache.{insert_entry}

abbrev pub max_pending_per_ip : ℕ
max_pending_per_ip = 8

abbrev pub pending_zero : Pending
pending_zero = record { expiration_tick = 0; waiting_tasks = []; ip = ip_zero }

abbrev pub is_free : Pending → Bool
is_free p = elim p.waiting_tasks [ [] ↦ true | t ∷ ts ↦ false ]

abbrev pub update_pending : ℕ → (Pending → Pending) → State Sys (Unit {0})
update_pending i f = modify (λ s. record s {
  arp_pending_tasks = set s.arp_pending_tasks i (f (get_or s.arp_pending_tasks i pending_zero));
})

-- `find_pending`.
unfoldable pub find_pending : Ipv4Addr → List Pending → Option ℕ
find_pending ip ps = search_from (λ p. not (is_free p) && ip_eq p.ip ip) 0 ps

-- `alloc_pending`: the first free slot, with no task in it yet.
unfoldable pub alloc_pending : Env → Ipv4Addr → State Sys (Option ℕ)
alloc_pending env ip = do
  s ← get
  elim (search_from is_free 0 s.arp_pending_tasks) [
    | none ↦ return none
    | some i ↦ do
      now ← tick_count env
      update_pending i (λ p. record {
        expiration_tick = u32 (now + env.ms_to_ticks 1000);
        waiting_tasks = [];
        ip = ip;
      })
      return (some i)
  ]

-- `xTaskNotifyGive` for each waiting task, in order.
unfoldable pub notify_all : List ℕ → State Sys (Unit {0})
notify_all [] = skip
notify_all (t ∷ ts) = do record_call (Call.notify_give t); notify_all ts

-- `add_ip_mac_cache_entry`: the table, then the tasks that wait for this address.
unfoldable pub add_ip_mac_cache_entry : ArpEntry → State Sys (Unit {0})
add_ip_mac_cache_entry e = do
  modify (λ s.
      let (rows, top) = insert_entry e s.ip_mac_cache s.ip_mac_cache_top in
      record s { ip_mac_cache = rows; ip_mac_cache_top = top })
  s ← get
  elim (find_pending e.ip s.arp_pending_tasks) [
    | none ↦ skip
    | some i ↦ do
      notify_all (get_or s.arp_pending_tasks i pending_zero).waiting_tasks
      update_pending i (λ p. record p { waiting_tasks = [] })
  ]

-- The loop of the task that gives up what has waited too long: the slots, and the calls it makes.
unfoldable pub expire : ℕ → List Pending → State Sys (List Pending)
expire now [] = return []
expire now (p ∷ ps) = do
  if leb p.expiration_tick now then notify_all p.waiting_tasks else skip
  rest ← expire now ps
  return ((if leb p.expiration_tick now then record p { waiting_tasks = [] } else p) ∷ rest)
