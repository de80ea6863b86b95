-- ===== src/Arp/Pending/Requests.antt =====
-- arp.c: a task that asks for an address is not lost: it is let go at once, or it waits in the slot
-- of that address.
use ip.Base.{
  lt-of-get_elem?, get_or-of-get_elem?, ℕ, ◌+◌, ◌≤◌, ◌≡◌, refl, ap, arith, Bool, true, false, ◌&&◌,
  not, leb, ◌⊎◌, inl, inr, List, [], ◌∷◌, ◌++◌, none, some, length, get_elem?, get_or, set,
  get_elem?-set_self, search_from, search_iff, Bool-cases, Option-cases, u32, length-append,
}
use ip.Utility.Types.{Ipv4Addr, ip_eq, ip_eq_iff}
use ip.Os.{Env, Call, Log, ArpRequest}
use ip.Sys.{Sys, Pending, is_ok, tick_count, record_call}
use ip.Eth.{eth_tx}
use ip.Arp.Packets.{send_arp_request}
use ip.Arp.Pending.{pending_zero, is_free, find_pending, alloc_pending, max_pending_per_ip}
use ip.Arp.Task.{join_pending, handle_request}

-- The last call let the task go.
abbrev pub LetGo : ℕ → Sys → Type 0
LetGo task t = (l : Log) × (t.log ≡ Call.notify_give task ∷ l)

-- The task is the last to wait in a slot for the address, with at most 8 in the slot.
pub record WaitsFor (ip : Ipv4Addr) (task : ℕ) (t : Sys) : Type 0 where
  pub slot : ℕ
  pub entry : Pending
  pub before : List ℕ
  pub at : get_elem? t.arp_pending_tasks slot ≡ some entry
  pub address : entry.ip ≡ ip
  pub waits : entry.waiting_tasks ≡ before ++ (task ∷ [])
  pub room : length entry.waiting_tasks ≤ max_pending_per_ip

join_pending-keeps :
    (i : ℕ) (r : ArpRequest) (s : Sys) (p : Pending)
    → get_elem? s.arp_pending_tasks i ≡ some p
    → p.ip ≡ r.ip
    → LetGo r.task (join_pending i r s).1 ⊎ WaitsFor r.ip r.task (join_pending i r s).1
unfolding join_pending
join_pending-keeps i r s p at own =
    elim (Bool-cases (leb max_pending_per_ip (length p.waiting_tasks))) [
      | inl full ↦ rw (slot, full) (inl (s.log, refl))
      | inr room ↦
          let q = record p { waiting_tasks = p.waiting_tasks ++ (r.task ∷ []) } in
          rw (slot, room, slot)
            (inr (record {
              slot = i;
              entry = q;
              before = p.waiting_tasks;
              at =
                  get_elem?-set_self s.arp_pending_tasks i q
                    (lt-of-get_elem? s.arp_pending_tasks i p at);
              address = own;
              waits = refl;
              room = ground (arith, length-append p.waiting_tasks (r.task ∷ []));
            }))
    ]
  where
    slot : get_or s.arp_pending_tasks i pending_zero ≡ p
    slot = get_or-of-get_elem? s.arp_pending_tasks i pending_zero p at

pub pending-send_arp_request :
    (env : Env) (ip : Ipv4Addr) (s : Sys)
    → (send_arp_request env ip s).1.arp_pending_tasks ≡ s.arp_pending_tasks
unfolding send_arp_request eth_tx
pending-send_arp_request env ip s = ground arith

-- The slot that is found is for the address.
pub find_pending-at :
    (ip : Ipv4Addr) (ps : List Pending) (i : ℕ)
    → find_pending ip ps ≡ some i
    → (p : Pending) × (get_elem? ps i ≡ some p) × (p.ip ≡ ip)
unfolding find_pending
find_pending-at ip ps i h =
    let f =
      (search_iff (λ p. not (is_free p) && ip_eq p.ip ip)
          (λ p. (not (is_free p) && ip_eq p.ip ip) ≡ true) (λ p. (λ e. e, λ e. e)) i ps).0
        h in
    (
      f.item,
      f.at,
      (ip_eq_iff f.item.ip ip).0 (second (not (is_free f.item)) (ip_eq f.item.ip ip) f.holds),
    )
  where
    second : (a b : Bool) → (a && b) ≡ true → b ≡ true
    second a b e = ground arith

-- A new entry, as `alloc_pending` writes it.
abbrev pub fresh : Env → Ipv4Addr → Sys → Pending
fresh env ip s = record {
  expiration_tick = u32 (u32 (env.ticks_now s.log) + env.ms_to_ticks 1000);
  waiting_tasks = [];
  ip = ip;
}

pub alloc_pending-some :
    (env : Env) (ip : Ipv4Addr) (s : Sys) (k : ℕ)
    → search_from is_free 0 s.arp_pending_tasks ≡ some k
    → alloc_pending env ip s ≡ (
      some k,
      record s {
        arp_pending_tasks = set s.arp_pending_tasks k (fresh env ip s);
        log = Call.tick_count (u32 (env.ticks_now s.log)) ∷ s.log;
      },
    )
unfolding alloc_pending tick_count
alloc_pending-some env ip s k h = ground (arith, h)

pub alloc_pending-none :
    (env : Env) (ip : Ipv4Addr) (s : Sys)
    → search_from is_free 0 s.arp_pending_tasks ≡ none
    → (alloc_pending env ip s).0 ≡ none
unfolding alloc_pending
alloc_pending-none env ip s h = ground (arith, h)

-- A slot that is allocated is for the address, and empty.
pub alloc_pending-at :
    (env : Env) (ip : Ipv4Addr) (s : Sys) (i : ℕ)
    → (alloc_pending env ip s).0 ≡ some i
    → (p : Pending) × (get_elem? (alloc_pending env ip s).1.arp_pending_tasks i ≡ some p)
      × (p.ip ≡ ip)
alloc_pending-at env ip s i h = elim (Option-cases (search_from is_free 0 s.arp_pending_tasks)) [
  | inl none_free ↦ absurd (ground (arith, alloc_pending-none env ip s none_free))
  | inr (k, at) ↦
      let first =
        (search_iff is_free (λ p. is_free p ≡ true) (λ p. (λ e. e, λ e. e)) k s.arp_pending_tasks).0
          at in
      let same : i ≡ k = cc (alloc_pending-some env ip s k at, h) in
      rw (same, alloc_pending-some env ip s k at)
        (
          fresh env ip s,
          get_elem?-set_self s.arp_pending_tasks k (fresh env ip s)
              (lt-of-get_elem? s.arp_pending_tasks k first.item first.at),
          refl,
        )
]

pub handle_request-found :
    (env : Env) (r : ArpRequest) (s : Sys) (i : ℕ)
    → find_pending r.ip s.arp_pending_tasks ≡ some i
    → (handle_request env r s).1 ≡ (join_pending i r s).1
unfolding handle_request
handle_request-found env r s i at = ground (arith, at)

pub handle_request-full :
    (env : Env) (r : ArpRequest) (s : Sys)
    → find_pending r.ip s.arp_pending_tasks ≡ none
    → (alloc_pending env r.ip s).0 ≡ none
    → (handle_request env r s).1 ≡ record (alloc_pending env r.ip s).1 {
      log = Call.notify_give r.task ∷ (alloc_pending env r.ip s).1.log;
    }
unfolding handle_request record_call
handle_request-full env r s no_slot full = ground (arith, no_slot, full)

pub handle_request-failed :
    (env : Env) (r : ArpRequest) (s : Sys) (i : ℕ)
    → find_pending r.ip s.arp_pending_tasks ≡ none
    → (alloc_pending env r.ip s).0 ≡ some i
    → is_ok (send_arp_request env r.ip (alloc_pending env r.ip s).1).0 ≡ false
    → let t = (send_arp_request env r.ip (alloc_pending env r.ip s).1).1 in
      (handle_request env r s).1 ≡ record t { log = Call.notify_give r.task ∷ t.log }
unfolding handle_request record_call
handle_request-failed env r s i no_slot slot failed = ground (arith, no_slot, slot, failed)

pub handle_request-sent :
    (env : Env) (r : ArpRequest) (s : Sys) (i : ℕ)
    → find_pending r.ip s.arp_pending_tasks ≡ none
    → (alloc_pending env r.ip s).0 ≡ some i
    → is_ok (send_arp_request env r.ip (alloc_pending env r.ip s).1).0 ≡ true
    → (handle_request env r s).1
      ≡ (join_pending i r (send_arp_request env r.ip (alloc_pending env r.ip s).1).1).1
unfolding handle_request
handle_request-sent env r s i no_slot slot sent = ground (arith, no_slot, slot, sent)

-- Whatever requests wait already, the task of a new request is let go at once, or it is the last
-- to wait in the slot of its address.
pub no_request_lost :
    (env : Env) (r : ArpRequest) (s : Sys)
    → LetGo r.task (handle_request env r s).1 ⊎ WaitsFor r.ip r.task (handle_request env r s).1
no_request_lost env r s = elim (Option-cases (find_pending r.ip s.arp_pending_tasks)) [
  | inr (i, at) ↦
      let (p, slot, own) = find_pending-at r.ip s.arp_pending_tasks i at in
      rw (handle_request-found env r s i at) (join_pending-keeps i r s p slot own)
  | inl none_found ↦ elim (Option-cases (alloc_pending env r.ip s).0) [
    | inl full ↦ inl (
      (alloc_pending env r.ip s).1.log,
      ap (λ t. t.log) (handle_request-full env r s none_found full),
    )
    | inr (i, at) ↦
        elim (Bool-cases (is_ok (send_arp_request env r.ip (alloc_pending env r.ip s).1).0)) [
          | inl sent ↦
              let (p, slot, own) = alloc_pending-at env r.ip s i at in
              rw (handle_request-sent env r s i none_found at sent) (
                join_pending-keeps i r (send_arp_request env r.ip (alloc_pending env r.ip s).1).1 p
                  (rw (pending-send_arp_request env r.ip (alloc_pending env r.ip s).1) slot) own)
          | inr failed ↦ inl (
            (send_arp_request env r.ip (alloc_pending env r.ip s).1).1.log,
            ap (λ t. t.log) (handle_request-failed env r s i none_found at failed),
          )
        ]
  ]
]
