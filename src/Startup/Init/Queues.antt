-- ===== src/Startup/Init/Queues.antt =====
-- The queues that each task of the stack reads from or waits on, and starting a task.
use ip.Base.{
  ℕ, zero, suc, ◌≡◌, refl, sym, ap, ◌∙◌, Bool, true, false, ==_iff, Bool-cases, ◌⊎◌, inl, inr,
}
use ip.Startup.Kernel.{Handle, Task, Kernel, Boot, mark, same_task, task_index, task_create}
use ip.Startup.Init.Ready.{Grows}

-- The queues that a task reads from or waits on. What the TCP and UDP tasks wait on may be NULL.
abbrev pub HasQueues : Task → Boot → Type 0
HasQueues Task.arp_task b =
    (b.created Handle.arp_request_queue ≡ true)
    × (b.created Handle.arp_input_queue ≡ true)
    × (b.created Handle.arp_queue_set ≡ true)
HasQueues Task.ipv4_task b = b.created Handle.ipv4_transmit_queue ≡ true
HasQueues Task.tcp_task b =
    (b.created Handle.tcp_send_queue ≡ true)
    × (b.created Handle.tcp_input_queue ≡ true)
    × (b.created Handle.port_cmd_queue ≡ true)
HasQueues Task.udp_task b =
    (b.created Handle.udp_port_queue ≡ true) × (b.created Handle.udp_send_queue ≡ true)

-- No task runs without its queues.
unfoldable pub Served : Boot → Type 0
Served b = (t : Task) → b.started t ≡ true → HasQueues t b

HasQueues-Grows : (t : Task) (b c : Boot) → Grows b c → HasQueues t b → HasQueues t c
HasQueues-Grows Task.arp_task b c grows has = (grows _ has.0, grows _ has.1, grows _ has.2)
HasQueues-Grows Task.ipv4_task b c grows has = grows _ has
HasQueues-Grows Task.tcp_task b c grows has = (grows _ has.0, grows _ has.1, grows _ has.2)
HasQueues-Grows Task.udp_task b c grows has = (grows _ has.0, grows _ has.1)

pub Served-Grows : (b c : Boot) → Grows b c → c.started ≡ b.started → Served b → Served c
unfolding Served
Served-Grows b c grows same served t runs =
    HasQueues-Grows t b c grows (served t (sym (ap (λ f. f t) same) ∙ runs))

mark-cases :
    {A : Type 0} (ok : Bool) (is_new there : A → Bool) (a : A)
    → mark ok is_new there a ≡ true
    → (is_new a ≡ true) ⊎ (there a ≡ true)
unfolding mark
mark-cases true is_new there a h = elim (Bool-cases (is_new a)) [
  | inl new ↦ inl new
  | inr old ↦ inr (rw old at h)
]
mark-cases false is_new there a h = inr h

task_at : ℕ → Task
task_at zero = Task.arp_task
task_at (suc zero) = Task.ipv4_task
task_at (suc (suc zero)) = Task.tcp_task
task_at (suc (suc (suc n))) = Task.udp_task

task_at-task_index : (t : Task) → task_at (task_index t) ≡ t
unfolding task_at
task_at-task_index Task.arp_task = refl
task_at-task_index Task.ipv4_task = refl
task_at-task_index Task.tcp_task = refl
task_at-task_index Task.udp_task = refl

same_task→≡ : (t u : Task) → same_task t u ≡ true → t ≡ u
same_task→≡ t u same =
    sym (task_at-task_index t)
    ∙ ap task_at ((==_iff (task_index t) (task_index u)).0 same)
    ∙ task_at-task_index u

pub Served-task :
    (kernel : Kernel) (t : Task) (stack : ℕ) (b : Boot)
    → HasQueues t b
    → Served b
    → Served (task_create kernel t stack b).1
unfolding Served
Served-task kernel t stack b has served u runs =
    HasQueues-Grows u b (task_create kernel t stack b).1 (λ k there. there)
      (elim (mark-cases (kernel.task_new b.calls t) (same_task t) b.started u runs) [
        | inl same ↦ rw (← same_task→≡ t u same) has
        | inr before ↦ served u before
      ])
