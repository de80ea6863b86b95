-- ===== src/Startup/Init/Served.antt =====
-- No task is started before its queues exist.
use ip.Base.{
  ℕ, ◌≡◌, Bool, true, false, Bool-cases, inl, inr, List, [], ◌∷◌, State, ◌>>=◌, ◌>>◌, return_unless,
  skip,
}
use ip.Os.{Err}
use ip.Startup.Kernel.{Handle, Task, Kernel, Boot, task_create}
use ip.Startup.Init.{ensure_set, init_tcp, udp_init, ipv4_init, arp_init}
use ip.Startup.Init.Ready.{
  Grows, Ensures, ensure_in-Ensures, ensure-Ensures, ensure_set-Grows, ensure_arp_set-Ensures,
}
use ip.Startup.Init.Queues.{HasQueues, Served, Served-Grows, Served-task}

abbrev pub AllHave : List Handle → Boot → Type 0
AllHave [] b = Unit
AllHave (h ∷ hs) b = (b.created h ≡ true) × AllHave hs b

AllHave-Grows : (hs : List Handle) (b c : Boot) → Grows b c → AllHave hs b → AllHave hs c
AllHave-Grows [] b c grows has = tt
AllHave-Grows (h ∷ hs) b c grows has = (grows h has.0, AllHave-Grows hs b c grows has.1)

-- From a state in which these handles exist, a step leaves no task without its queues.
unfoldable pub Serves : {A : Type 0} → List Handle → State Boot A → Type 0
Serves hs step = (b : Boot) → Served b → AllHave hs b → Served (step b).1

skip-Serves : {A : Type 0} (a : A) (hs : List Handle) → Serves hs (λ b. (a, b))
unfolding Serves
skip-Serves a hs b served has = served

Ensures-Serves :
    {A : Type 0} (h : Handle) (hs : List Handle) (step : State Boot Bool) (a : A)
    (rest : State Boot A)
    → ((b : Boot) → Ensures h b (step b))
    → Serves (h ∷ hs) rest
    → Serves hs (step >>= (λ ok. return_unless ok a rest))
unfolding Serves Ensures
Ensures-Serves h hs step a rest ensures then b served has = elim (Bool-cases (step b).0) [
  | inl ok ↦
      rw ok (then (step b).1 grown (ensured.2 ok, AllHave-Grows hs b (step b).1 ensured.0 has))
  | inr full ↦ rw full grown
]
  where
    ensured : Ensures h b (step b)
    ensured = ensures b

    grown : Served (step b).1
    grown = Served-Grows b (step b).1 ensured.0 ensured.1 served

set-Serves :
    {A : Type 0} (kernel : Kernel) (h : Handle) (len : ℕ) (hs : List Handle) (rest : State Boot A)
    → Serves hs rest
    → Serves hs (ensure_set kernel h len >> rest)
unfolding Serves
set-Serves kernel h len hs rest then b served has =
    let (grows, same) = ensure_set-Grows kernel h len b in
    let c = (ensure_set kernel h len b).1 in
    then c (Served-Grows b c grows same served) (AllHave-Grows hs b c grows has)

last_task-Serves :
    (kernel : Kernel) (t : Task) (stack : ℕ) (hs : List Handle)
    → ((b : Boot) → AllHave hs b → HasQueues t b)
    → Serves hs (task_create kernel t stack >> skip)
unfolding Serves
last_task-Serves kernel t stack hs queues b served has =
    Served-task kernel t stack b (queues b has) served

task-Serves :
    {A : Type 0} (kernel : Kernel) (t : Task) (stack : ℕ) (hs : List Handle) (a : A)
    (rest : State Boot A)
    → ((b : Boot) → AllHave hs b → HasQueues t b)
    → Serves [] rest
    → Serves hs (task_create kernel t stack >>= (λ ok. return_unless ok a rest))
unfolding Serves
task-Serves kernel t stack hs a rest queues then b served has = go (kernel.task_new b.calls t)
  where
    after : Boot
    after = (task_create kernel t stack b).1

    go : (ok : Bool) → Served (return_unless ok a rest after).1
    go true = then after (Served-task kernel t stack b (queues b has) served) tt
    go false = Served-task kernel t stack b (queues b has) served

-- Nothing reads the answer of the step.
dropped-Serves :
    {A : Type 0} (hs : List Handle) (step : State Boot A)
    → Serves hs step
    → Serves hs (step >> skip)
unfolding Serves
dropped-Serves hs step serves b served has = serves b served has

pub init_tcp-Serves : (kernel : Kernel) → Serves [] (init_tcp kernel)
unfolding init_tcp
init_tcp-Serves kernel = set-Serves kernel Handle.tcp_task_queue_set 20 [] _ (
    Ensures-Serves Handle.tcp_send_queue [] _ _ _
      (ensure_in-Ensures kernel Handle.tcp_send_queue 8 Handle.tcp_task_queue_set)
      (Ensures-Serves Handle.tcp_input_queue _ _ _ _
        (ensure_in-Ensures kernel Handle.tcp_input_queue 8 Handle.tcp_task_queue_set)
        (Ensures-Serves Handle.port_cmd_queue _ _ _ _
          (ensure_in-Ensures kernel Handle.port_cmd_queue 4 Handle.tcp_task_queue_set)
          (task-Serves kernel Task.tcp_task 3000 _ _ _ (λ b has. (has.1.1.0, has.1.0, has.0))
            (skip-Serves Err.esp_ok [])))))

pub udp_init-Serves : (kernel : Kernel) → Serves [] (udp_init kernel)
unfolding udp_init
udp_init-Serves kernel = set-Serves kernel Handle.udp_task_queue_set 8 [] _ (
    Ensures-Serves Handle.udp_port_queue [] _ _ _
      (ensure_in-Ensures kernel Handle.udp_port_queue 4 Handle.udp_task_queue_set)
      (Ensures-Serves Handle.udp_send_queue _ _ _ _
        (ensure_in-Ensures kernel Handle.udp_send_queue 8 Handle.udp_task_queue_set)
        (last_task-Serves kernel Task.udp_task 800 _ (λ b has. (has.1.0, has.0)))))

pub arp_init-Serves : (kernel : Kernel) → Serves [] (arp_init kernel)
unfolding arp_init
arp_init-Serves kernel =
    Ensures-Serves Handle.arp_request_queue [] _ _ _
      (ensure-Ensures kernel Handle.arp_request_queue 4)
      (Ensures-Serves Handle.arp_input_queue _ _ _ _
        (ensure-Ensures kernel Handle.arp_input_queue 4)
        (Ensures-Serves Handle.arp_queue_set _ _ _ _ (ensure_arp_set-Ensures kernel)
          (last_task-Serves kernel Task.arp_task 1600 _ (λ b has. (has.1.1.0, has.1.0, has.0)))))

pub ipv4_init-Serves : (kernel : Kernel) → Serves [] (ipv4_init kernel)
unfolding ipv4_init
ipv4_init-Serves kernel =
    Ensures-Serves Handle.ipv4_transmit_queue [] _ _ _
      (ensure-Ensures kernel Handle.ipv4_transmit_queue 4)
      (task-Serves kernel Task.ipv4_task 1500 _ _ _ (λ b has. has.0)
        (dropped-Serves [] (init_tcp kernel) (init_tcp-Serves kernel)))

-- The init functions, called in any order and as often as one likes.
pub data InitCall : Type 0 where
  call_arp_init call_ipv4_init call_init_tcp call_udp_init : InitCall

abbrev pub run_init : Kernel → InitCall → Boot → Boot
run_init kernel call_arp_init b = (arp_init kernel b).1
run_init kernel call_ipv4_init b = (ipv4_init kernel b).1
run_init kernel call_init_tcp b = (init_tcp kernel b).1
run_init kernel call_udp_init b = (udp_init kernel b).1

abbrev pub run_inits : Kernel → List InitCall → Boot → Boot
run_inits kernel [] b = b
run_inits kernel (c ∷ cs) b = run_inits kernel cs (run_init kernel c b)

-- Whatever the kernel grants, and whichever init functions are called in which order, no task is
-- started before the queues that it reads exist.
pub run_inits-Served :
    (kernel : Kernel) (cs : List InitCall) (b : Boot) → Served b → Served (run_inits kernel cs b)
unfolding Serves
run_inits-Served kernel [] b served = served
run_inits-Served kernel (call_arp_init ∷ cs) b served =
    run_inits-Served kernel cs _ (arp_init-Serves kernel b served tt)
run_inits-Served kernel (call_ipv4_init ∷ cs) b served =
    run_inits-Served kernel cs _ (ipv4_init-Serves kernel b served tt)
run_inits-Served kernel (call_init_tcp ∷ cs) b served =
    run_inits-Served kernel cs _ (init_tcp-Serves kernel b served tt)
run_inits-Served kernel (call_udp_init ∷ cs) b served =
    run_inits-Served kernel cs _ (udp_init-Serves kernel b served tt)
