-- ===== src/Startup/Init/Ready.antt =====
-- The steps of the init functions that create queues: what is created stays.
use ip.Base.{ℕ, arith, Bool, true, false, ◌≡◌, refl, ==_iff, Bool-cases, inl, inr}
use ip.Startup.Kernel.{Handle, Kernel, Boot, mark, same_handle}
use ip.Startup.Init.{ensure_in, ensure, ensure_set, ensure_arp_set}

-- No handle is lost.
abbrev pub Grows : Boot → Boot → Type 0
Grows b c = (k : Handle) → b.created k ≡ true → c.created k ≡ true

pub mark_self : (h : Handle) (created : Handle → Bool) → mark true (same_handle h) created h ≡ true
unfolding mark
mark_self h created = rw ((==_iff _ _).1 refl)

pub mark_keeps :
    {A : Type 0} (ok : Bool) (is_new there : A → Bool) (a : A)
    → there a ≡ true
    → mark ok is_new there a ≡ true
unfolding mark
mark_keeps true is_new there a has = elim (Bool-cases (is_new a)) [
  | inl new ↦ rw new
  | inr old ↦ rw old has
]
mark_keeps false is_new there a has = has

-- No handle is lost, no task is started, and the handle asked for is there if the step says so.
unfoldable pub Ensures : Handle → Boot → Bool × Boot → Type 0
Ensures h b r = Grows b r.1 × (r.1.started ≡ b.started) × (r.0 ≡ true → r.1.created h ≡ true)

marked-Ensures :
    (ok : Bool) (h : Handle) (b : Boot)
    → Ensures h b (ok, record b { created = mark ok (same_handle h) b.created })
unfolding Ensures
marked-Ensures true h b =
    (λ k has. mark_keeps true (same_handle h) b.created k has, refl, λ e. mark_self h b.created)
marked-Ensures false h b =
    (λ k has. mark_keeps false (same_handle h) b.created k has, refl, λ e. ground arith)

pub ensure_in-Ensures :
    (kernel : Kernel) (h : Handle) (len : ℕ) (set : Handle) (b : Boot)
    → Ensures h b (ensure_in kernel h len set b)
unfolding Ensures ensure_in
ensure_in-Ensures kernel h len set b = elim (Bool-cases (b.created h)) [
  | inl there ↦ rw there (λ k has. has, refl, λ e. there)
  | inr missing ↦ elim (Bool-cases (kernel.handle_new b.calls h)) [
    | inl ok ↦ rw (missing, ok) (marked-Ensures true h b)
    | inr full ↦ rw (missing, full) (marked-Ensures false h b)
  ]
]

pub ensure-Ensures :
    (kernel : Kernel) (h : Handle) (len : ℕ) (b : Boot) → Ensures h b (ensure kernel h len b)
unfolding Ensures ensure
ensure-Ensures kernel h len b = elim (Bool-cases (b.created h)) [
  | inl there ↦ rw there (λ k has. has, refl, λ e. there)
  | inr missing ↦ elim (Bool-cases (kernel.handle_new b.calls h)) [
    | inl ok ↦ rw (missing, ok) (marked-Ensures true h b)
    | inr full ↦ rw (missing, full) (marked-Ensures false h b)
  ]
]

pub ensure_arp_set-Ensures :
    (kernel : Kernel) (b : Boot) → Ensures Handle.arp_queue_set b (ensure_arp_set kernel b)
unfolding Ensures ensure_arp_set
ensure_arp_set-Ensures kernel b = elim (Bool-cases (b.created Handle.arp_queue_set)) [
  | inl there ↦ rw there (λ k has. has, refl, λ e. there)
  | inr missing ↦ elim (Bool-cases (kernel.handle_new b.calls Handle.arp_queue_set)) [
    | inl ok ↦ rw (missing, ok) (marked-Ensures true Handle.arp_queue_set b)
    | inr full ↦ rw (missing, full) (marked-Ensures false Handle.arp_queue_set b)
  ]
]

pub ensure_set-Grows :
    (kernel : Kernel) (h : Handle) (len : ℕ) (b : Boot)
    → Grows b (ensure_set kernel h len b).1 × ((ensure_set kernel h len b).1.started ≡ b.started)
unfolding ensure_set
ensure_set-Grows kernel h len b = elim (Bool-cases (b.created h)) [
  | inl there ↦ rw there (λ k has. has, refl)
  | inr missing ↦
      rw missing
        (λ k has. mark_keeps (kernel.handle_new b.calls h) (same_handle h) b.created k has, refl)
]
