-- ===== src/Arp/Pending/Balance.antt =====
-- arp.c: how often a task waits for an address, and how often it has been let go.
use ip.Base.{
  ℕ, zero, suc, ◌+◌, ◌≡◌, refl, ap, arith, true, leb, ◌==◌, if◌then◌else◌, List, [], ◌∷◌, ◌++◌,
  Option, none, some, length, get_or, set, get_elem?, Bool-cases, Option-cases, inl, inr,
  search_from, search_iff, get_or-of-get_elem?, u32,
}
use ip.Utility.Types.{Ipv4Addr}
use ip.Os.{Env, Call, Log, ArpRequest, ArpEntry}
use ip.Sys.{Sys, Pending, is_ok}
use ip.Eth.{eth_tx}
use ip.Arp.Cache.{insert_entry}
use ip.Arp.Packets.{send_arp_request}
use ip.Arp.Pending.{
  max_pending_per_ip, pending_zero, is_free, find_pending, alloc_pending, notify_all,
  add_ip_mac_cache_entry, expire,
}
use ip.Arp.Pending.Requests.{
  find_pending-at, fresh, alloc_pending-some, alloc_pending-at, pending-send_arp_request,
  handle_request-found, handle_request-full, handle_request-failed, handle_request-sent,
}
use ip.Arp.Task.{join_pending, handle_request, clean_pending}

abbrev pub times : ℕ → List ℕ → ℕ
times task [] = 0
times task (x ∷ xs) = (if x == task then 1 else 0) + times task xs

-- How often a task waits in the table.
abbrev pub waits : ℕ → List Pending → ℕ
waits task [] = 0
waits task (p ∷ ps) = times task p.waiting_tasks + waits task ps

abbrev pub wakes_once : ℕ → Call → ℕ
wakes_once task (Call.notify_give k) = if k == task then 1 else 0
wakes_once task _ = 0

-- How often a task has been let go.
abbrev pub wakes : ℕ → Log → ℕ
wakes task [] = 0
wakes task (c ∷ l) = wakes_once task c + wakes task l

abbrev pub balance : ℕ → Sys → ℕ
balance task s = waits task s.arp_pending_tasks + wakes task s.log

times-append : (task : ℕ) (xs ys : List ℕ) → times task (xs ++ ys) ≡ times task xs + times task ys
times-append task [] ys = omega arith
times-append task (x ∷ xs) ys = omega (arith, times-append task xs ys)

-- A write to a slot exchanges those who wait in it.
waits-set :
    (task : ℕ) (ps : List Pending) (i : ℕ) (p q : Pending)
    → get_elem? ps i ≡ some p
    → waits task (set ps i q) + times task p.waiting_tasks
      ≡ waits task ps + times task q.waiting_tasks
waits-set task [] i p q h = cc
waits-set task (x ∷ ps) zero p q h = let same : x ≡ p = cc in rw same (omega arith)
waits-set task (x ∷ ps) (suc i) p q h = omega (arith, waits-set task ps i p q h)

module _ (task : ℕ) where
  notify_all-wakes :
      (ts : List ℕ) (s : Sys)
      → wakes task (notify_all ts s).1.log ≡ wakes task s.log + times task ts
  unfolding notify_all
  notify_all-wakes [] s = omega arith
  notify_all-wakes (t ∷ ts) s =
      omega (arith, notify_all-wakes ts (record s { log = Call.notify_give t ∷ s.log }))

  pub notify_all-waits :
      (ts : List ℕ) (s : Sys) → (notify_all ts s).1.arp_pending_tasks ≡ s.arp_pending_tasks
  unfolding notify_all
  notify_all-waits [] s = refl
  notify_all-waits (t ∷ ts) s = notify_all-waits ts (record s { log = Call.notify_give t ∷ s.log })

  free_times : (p : Pending) → is_free p ≡ true → times task p.waiting_tasks ≡ 0
  free_times p h = ground arith

  -- The state with the entry in the address table.
  abbrev pub learnt : ArpEntry → Sys → Sys
  learnt e s =
      let (rows, top) = insert_entry e s.ip_mac_cache s.ip_mac_cache_top in
      record s { ip_mac_cache = rows; ip_mac_cache_top = top }

  pub reply-unasked :
      (e : ArpEntry) (s : Sys)
      → find_pending e.ip s.arp_pending_tasks ≡ none
      → (add_ip_mac_cache_entry e s).1 ≡ learnt e s
  unfolding add_ip_mac_cache_entry
  reply-unasked e s h = ground (arith, h)

  pub reply-asked :
      (e : ArpEntry) (s : Sys) (i : ℕ)
      → find_pending e.ip s.arp_pending_tasks ≡ some i
      → let p = get_or s.arp_pending_tasks i pending_zero in
        let t = (notify_all p.waiting_tasks (learnt e s)).1 in
        let q = record (get_or t.arp_pending_tasks i pending_zero) { waiting_tasks = [] } in
        (add_ip_mac_cache_entry e s).1
        ≡ record t { arp_pending_tasks = set t.arp_pending_tasks i q }
  unfolding add_ip_mac_cache_entry
  reply-asked e s i h = ground (arith, h)

  expire-balance :
      (now : ℕ) (ps : List Pending) (s : Sys)
      → waits task (expire now ps s).0 + wakes task (expire now ps s).1.log
        ≡ waits task ps + wakes task s.log
  unfolding expire
  expire-balance now [] s = refl
  expire-balance now (p ∷ ps) s = elim (Bool-cases (leb p.expiration_tick now)) [
    | inl late ↦
        let t = (notify_all p.waiting_tasks s).1 in
        rw late (omega (arith, expire-balance now ps t, notify_all-wakes p.waiting_tasks s))
    | inr early ↦ rw early (omega (arith, expire-balance now ps s))
  ]

  pub clean_pending-balance :
      (env : Env) (s : Sys) → balance task (clean_pending env s).1 ≡ balance task s
  unfolding clean_pending
  clean_pending-balance env s =
      let now = u32 (env.ticks_now s.log) in
      let t : Sys = record s { log = Call.tick_count now ∷ s.log } in
      omega (arith, expire-balance now s.arp_pending_tasks t)

  pub reply-balance :
      (e : ArpEntry) (s : Sys) → balance task (add_ip_mac_cache_entry e s).1 ≡ balance task s
  reply-balance e s = elim (Option-cases (find_pending e.ip s.arp_pending_tasks)) [
    | inl unasked ↦ rw (reply-unasked e s unasked)
    | inr (i, found) ↦
        let (p, at, own) = find_pending-at e.ip s.arp_pending_tasks i found in
        let slot : get_or s.arp_pending_tasks i pending_zero ≡ p =
          get_or-of-get_elem? s.arp_pending_tasks i pending_zero p at in
        let same = notify_all-waits p.waiting_tasks (learnt e s) in
        rw (reply-asked e s i found, slot, same, slot)
          (omega (
            arith,
            waits-set task s.arp_pending_tasks i p (record p { waiting_tasks = [] }) at,
            notify_all-wakes p.waiting_tasks (learnt e s),
          ))
  ]

  pub alloc_pending-full :
      (env : Env) (ip : Ipv4Addr) (s : Sys)
      → search_from is_free 0 s.arp_pending_tasks ≡ none
      → alloc_pending env ip s ≡ (none, s)
  unfolding alloc_pending
  alloc_pending-full env ip s h = ground (arith, h)

  alloc_pending-balance :
      (env : Env) (ip : Ipv4Addr) (s : Sys) (k : ℕ)
      → search_from is_free 0 s.arp_pending_tasks ≡ some k
      → balance task (alloc_pending env ip s).1 ≡ balance task s
  alloc_pending-balance env ip s k at =
      let f =
        (search_iff is_free (λ p. is_free p ≡ true) (λ p. (λ e. e, λ e. e)) k s.arp_pending_tasks).0
          at in
      rw (alloc_pending-some env ip s k at) (
        omega (
          arith,
          waits-set task s.arp_pending_tasks k f.item (fresh env ip s) f.at,
          free_times f.item f.holds,
        ))

  send_arp_request-balance :
      (env : Env) (ip : Ipv4Addr) (s : Sys)
      → balance task (send_arp_request env ip s).1 ≡ balance task s
  unfolding send_arp_request eth_tx
  send_arp_request-balance env ip s = ground arith

  join_pending-balance :
      (i : ℕ) (r : ArpRequest) (s : Sys) (p : Pending)
      → get_elem? s.arp_pending_tasks i ≡ some p
      → balance task (join_pending i r s).1 ≡ balance task s + (if r.task == task then 1 else 0)
  unfolding join_pending
  join_pending-balance i r s p at =
      elim (Bool-cases (leb max_pending_per_ip (length p.waiting_tasks))) [
        | inl full ↦ rw (slot, full) (omega arith)
        | inr room ↦
            let q = record p { waiting_tasks = p.waiting_tasks ++ (r.task ∷ []) } in
            rw (slot, room, slot)
              (omega (
                arith,
                waits-set task s.arp_pending_tasks i p q at,
                times-append task p.waiting_tasks (r.task ∷ []),
              ))
      ]
    where
      slot : get_or s.arp_pending_tasks i pending_zero ≡ p
      slot = get_or-of-get_elem? s.arp_pending_tasks i pending_zero p at

  pub request-balance :
      (env : Env) (r : ArpRequest) (s : Sys)
      → balance task (handle_request env r s).1 ≡ balance task s + (if r.task == task then 1 else 0)
  request-balance env r s = elim (Option-cases (find_pending r.ip s.arp_pending_tasks)) [
    | inr (i, found) ↦
        let (p, at, own) = find_pending-at r.ip s.arp_pending_tasks i found in
        rw (handle_request-found env r s i found) (join_pending-balance i r s p at)
    | inl unasked ↦ elim (Option-cases (search_from is_free 0 s.arp_pending_tasks)) [
      | inl full ↦
          let none_free = alloc_pending-full env r.ip s full in
          rw (handle_request-full env r s unasked (ap (λ a. a.0) none_free), none_free)
            (omega arith)
      | inr (k, free) ↦
          let a = (alloc_pending env r.ip s).1 in
          let got : (alloc_pending env r.ip s).0 ≡ some k =
            ap (λ (x : Option ℕ × Sys). x.0) (alloc_pending-some env r.ip s k free) in
          let t = (send_arp_request env r.ip a).1 in
          elim (Bool-cases (is_ok (send_arp_request env r.ip a).0)) [
            | inl sent ↦
                let (p, at, own) = alloc_pending-at env r.ip s k got in
                rw (handle_request-sent env r s k unasked got sent) (
                  omega (
                    arith,
                    join_pending-balance k r t p (rw (pending-send_arp_request env r.ip a) at),
                    send_arp_request-balance env r.ip a,
                    alloc_pending-balance env r.ip s k free,
                  ))
            | inr failed ↦ rw (handle_request-failed env r s k unasked got failed) (
                omega (
                  arith,
                  send_arp_request-balance env r.ip a,
                  alloc_pending-balance env r.ip s k free,
                ))
          ]
    ]
  ]
