-- ===== src/Arp/Task/Dates.antt =====
-- arp.c: how long a request may wait in `arp_pending_tasks`.
use ip.Base.{
  ℕ, zero, suc, ◌+◌, ◌≡◌, ◌≤◌, ap, arith, leb, List, [], ◌∷◌, ◌++◌, Option, some, length, get_or,
  set, get_elem?, Bool-cases, Option-cases, inl, inr, search_from, get_or-of-get_elem?, u32,
}
use ip.Utility.Types.{Ipv4Addr}
use ip.Os.{Env, Call, Log, ArpRequest, ArpEntry}
use ip.Sys.{Sys, Pending, is_ok}
use ip.Eth.{eth_tx}
use ip.Arp.Packets.{send_arp_request}
use ip.Arp.Pending.{
  max_pending_per_ip, pending_zero, is_free, find_pending, alloc_pending, notify_all,
  add_ip_mac_cache_entry, expire,
}
use ip.Arp.Pending.Requests.{
  find_pending-at, fresh, alloc_pending-some, alloc_pending-at, pending-send_arp_request,
  handle_request-found, handle_request-full, handle_request-failed, handle_request-sent,
}
use ip.Arp.Pending.Balance.{
  learnt, reply-unasked, reply-asked, notify_all-waits, alloc_pending-full,
}
use ip.Arp.Task.{
  join_pending, handle_request, clean_pending, ArpEvent, no_event, got_request, got_reply,
  arp_task_round,
}

-- The time of every slot comes by `bound`.
abbrev pub AllDue : ℕ → List Pending → Type 0
AllDue bound [] = Unit
AllDue bound (p ∷ ps) = (p.expiration_tick ≤ bound) × AllDue bound ps

AllDue-get :
    (bound : ℕ) (ps : List Pending) (i : ℕ) (p : Pending)
    → AllDue bound ps
    → get_elem? ps i ≡ some p
    → p.expiration_tick ≤ bound
AllDue-get bound [] i p due at = cc
AllDue-get bound (x ∷ ps) zero p (d, due) at = let same : x ≡ p = cc in rw (← same) d
AllDue-get bound (x ∷ ps) (suc i) p (d, due) at = AllDue-get bound ps i p due at

AllDue-set :
    (bound : ℕ) (ps : List Pending) (i : ℕ) (q : Pending)
    → AllDue bound ps
    → q.expiration_tick ≤ bound
    → AllDue bound (set ps i q)
AllDue-set bound [] i q due new = tt
AllDue-set bound (x ∷ ps) zero q (d, due) new = (new, due)
AllDue-set bound (x ∷ ps) (suc i) q (d, due) new = (d, AllDue-set bound ps i q due new)

module _ (env : Env) (bound : ℕ) where
  -- A second after the tick that was read, `bound` has come.
  abbrev pub LongAgo : Call → Type 0
  LongAgo (Call.tick_count k) = k + env.ms_to_ticks 1000 ≤ bound
  LongAgo _ = Unit

  abbrev pub AllLongAgo : Log → Type 0
  AllLongAgo [] = Unit
  AllLongAgo (c ∷ l) = LongAgo c × AllLongAgo l

  -- If all ticks were read a second before `bound`, then slots that are due by `bound` stay so, and
  -- new ones are.
  pub record Dated (s t : Sys) : Type 0 where
    pub earlier : AllLongAgo t.log → AllLongAgo s.log
    pub due : AllLongAgo t.log → AllDue bound s.arp_pending_tasks → AllDue bound t.arp_pending_tasks

  pub Dated-trans : {s t u : Sys} → Dated s t → Dated t u → Dated s u
  Dated-trans f g = record {
    earlier = λ h. f.earlier (g.earlier h);
    due = λ h d. g.due h (f.due (g.earlier h) d);
  }

  notify_all-earlier :
      (ts : List ℕ) (s : Sys) → AllLongAgo (notify_all ts s).1.log → AllLongAgo s.log
  unfolding notify_all
  notify_all-earlier [] s h = h
  notify_all-earlier (t ∷ ts) s h =
      (notify_all-earlier ts (record s { log = Call.notify_give t ∷ s.log }) h).1

  expire-earlier :
      (now : ℕ) (ps : List Pending) (s : Sys)
      → AllLongAgo (expire now ps s).1.log
      → AllLongAgo s.log
  unfolding expire
  expire-earlier now [] s h = h
  expire-earlier now (p ∷ ps) s h = elim (Bool-cases (leb p.expiration_tick now)) [
    | inl late ↦
        let g = rw late at h in
        notify_all-earlier p.waiting_tasks s
          (expire-earlier now ps (notify_all p.waiting_tasks s).1 g)
    | inr early ↦ let g = rw early at h in expire-earlier now ps s g
  ]

  expire-due :
      (now : ℕ) (ps : List Pending) (s : Sys) → AllDue bound ps → AllDue bound (expire now ps s).0
  unfolding expire
  expire-due now [] s due = tt
  expire-due now (p ∷ ps) s (d, due) = elim (Bool-cases (leb p.expiration_tick now)) [
    | inl late ↦ rw late (d, expire-due now ps (notify_all p.waiting_tasks s).1 due)
    | inr early ↦ rw early (d, expire-due now ps s due)
  ]

  clean_pending-Dated : (s : Sys) → Dated s (clean_pending env s).1
  unfolding clean_pending
  clean_pending-Dated s =
      let now = u32 (env.ticks_now s.log) in
      let t : Sys = record s { log = Call.tick_count now ∷ s.log } in
      record {
        earlier = λ h. (expire-earlier now s.arp_pending_tasks t h).1;
        due = λ h d. expire-due now s.arp_pending_tasks t d;
      }

  reply-Dated : (e : ArpEntry) (s : Sys) → Dated s (add_ip_mac_cache_entry e s).1
  reply-Dated e s = elim (Option-cases (find_pending e.ip s.arp_pending_tasks)) [
    | inl unasked ↦ rw (reply-unasked 0 e s unasked) (record { earlier = λ h. h; due = λ h d. d })
    | inr (i, found) ↦
        let (p, at, own) = find_pending-at e.ip s.arp_pending_tasks i found in
        let slot : get_or s.arp_pending_tasks i pending_zero ≡ p =
          get_or-of-get_elem? s.arp_pending_tasks i pending_zero p at in
        let same = notify_all-waits 0 p.waiting_tasks (learnt 0 e s) in
        rw (reply-asked 0 e s i found, slot, same, slot)
          (record {
            earlier = λ h. notify_all-earlier p.waiting_tasks (learnt 0 e s) h;
            due = λ h d.
                AllDue-set bound s.arp_pending_tasks i (record p { waiting_tasks = [] }) d
                  (AllDue-get bound s.arp_pending_tasks i p d at);
          })
  ]

  alloc_pending-Dated :
      (ip : Ipv4Addr) (s : Sys) (k : ℕ)
      → search_from is_free 0 s.arp_pending_tasks ≡ some k
      → Dated s (alloc_pending env ip s).1
  alloc_pending-Dated ip s k at = rw (alloc_pending-some env ip s k at) (record {
    earlier = λ h. h.1;
    due = λ h d.
        AllDue-set bound s.arp_pending_tasks k (fresh env ip s) d
          (let read = h.0 in omega (arith, read));
  })

  join_pending-Dated :
      (i : ℕ) (r : ArpRequest) (s : Sys) (p : Pending)
      → get_elem? s.arp_pending_tasks i ≡ some p
      → Dated s (join_pending i r s).1
  unfolding join_pending
  join_pending-Dated i r s p at =
      let slot : get_or s.arp_pending_tasks i pending_zero ≡ p =
        get_or-of-get_elem? s.arp_pending_tasks i pending_zero p at in
      elim (Bool-cases (leb max_pending_per_ip (length p.waiting_tasks))) [
        | inl full ↦ rw (slot, full) (record { earlier = λ h. h.1; due = λ h d. d })
        | inr room ↦
            let q = record p { waiting_tasks = p.waiting_tasks ++ (r.task ∷ []) } in
            rw (slot, room, slot)
              (record {
                earlier = λ h. h;
                due = λ h d.
                    AllDue-set bound s.arp_pending_tasks i q d
                      (AllDue-get bound s.arp_pending_tasks i p d at);
              })
      ]

  send_arp_request-earlier :
      (ip : Ipv4Addr) (s : Sys) → AllLongAgo (send_arp_request env ip s).1.log → AllLongAgo s.log
  unfolding send_arp_request eth_tx
  send_arp_request-earlier ip s h = elim (Option-cases (env.malloc_at s.log 42)) [
    | inl no_memory ↦ let g = rw no_memory at h in g.1
    | inr (a, got) ↦ let g = rw got at h in g.1.1.1
  ]

  send_arp_request-Dated : (ip : Ipv4Addr) (s : Sys) → Dated s (send_arp_request env ip s).1
  send_arp_request-Dated ip s = record {
    earlier = send_arp_request-earlier ip s;
    due = λ h d. rw (pending-send_arp_request env ip s) d;
  }

  Dated-called :
      {s t : Sys} (task : ℕ)
      → Dated s t
      → Dated s (record t { log = Call.notify_give task ∷ t.log })
  Dated-called task f = record { earlier = λ h. f.earlier h.1; due = λ h d. f.due h.1 d }

  handle_request-Dated : (r : ArpRequest) (s : Sys) → Dated s (handle_request env r s).1
  handle_request-Dated r s = elim (Option-cases (find_pending r.ip s.arp_pending_tasks)) [
    | inr (i, found) ↦
        let (p, at, own) = find_pending-at r.ip s.arp_pending_tasks i found in
        rw (handle_request-found env r s i found) (join_pending-Dated i r s p at)
    | inl unasked ↦ elim (Option-cases (search_from is_free 0 s.arp_pending_tasks)) [
      | inl full ↦
          let none_free = alloc_pending-full 0 env r.ip s full in
          rw (handle_request-full env r s unasked (ap (λ a. a.0) none_free), none_free)
            (record { earlier = λ h. h.1; due = λ h d. d })
      | inr (k, free) ↦
          let a = (alloc_pending env r.ip s).1 in
          let got : (alloc_pending env r.ip s).0 ≡ some k =
            ap (λ (x : Option ℕ × Sys). x.0) (alloc_pending-some env r.ip s k free) in
          let t = (send_arp_request env r.ip a).1 in
          let asked =
            Dated-trans (alloc_pending-Dated r.ip s k free) (send_arp_request-Dated r.ip a) in
          elim (Bool-cases (is_ok (send_arp_request env r.ip a).0)) [
            | inl sent ↦
                let (p, at, own) = alloc_pending-at env r.ip s k got in
                let kept : get_elem? t.arp_pending_tasks k ≡ some p =
                  rw (pending-send_arp_request env r.ip a) at in
                rw (handle_request-sent env r s k unasked got sent)
                  (Dated-trans asked (join_pending-Dated k r t p kept))
            | inr failed ↦
                rw (handle_request-failed env r s k unasked got failed) (Dated-called r.task asked)
          ]
    ]
  ]

  pub arp_task_round-Dated : (e : ArpEvent) (s : Sys) → Dated s (arp_task_round env e s).1
  unfolding arp_task_round
  arp_task_round-Dated no_event s = clean_pending-Dated s
  arp_task_round-Dated (got_request r) s =
      Dated-trans (clean_pending-Dated s) (handle_request-Dated r (clean_pending env s).1)
  arp_task_round-Dated (got_reply e) s =
      Dated-trans (clean_pending-Dated s) (reply-Dated e (clean_pending env s).1)
