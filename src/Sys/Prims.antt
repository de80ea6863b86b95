-- ===== src/Sys/Prims.antt =====
-- The calls that leave the program, as steps on its state: each asks the environment and is
-- recorded. `fault` marks undefined behaviour.
use ip.Base.{ℕ, Bool, true, false, List, ◌∷◌, Option, none, some, State, skip, u32}
use ip.Os.{Buf, Err, Env, Call, Timeout, Queue}
use ip.Sys.Globals.{Sys}

abbrev pub record_call : Call → State Sys (Unit {0})
record_call c s = (tt, record s { log = c ∷ s.log })

abbrev pub fault : State Sys (Unit {0})
fault = record_call Call.fault

-- `free(p)`, which does nothing at NULL.
abbrev pub free_buf : Option Buf → State Sys (Unit {0})
free_buf none = skip
free_buf (some b) = record_call (Call.free b.addr)

module _ (env : Env) where
  abbrev pub malloc : ℕ → State Sys (Option ℕ)
  malloc n s = let a = env.malloc_at s.log n in (a, record s { log = Call.malloc n a ∷ s.log })

  -- `xTaskGetTickCount()`, a 32-bit counter.
  abbrev pub tick_count : State Sys ℕ
  tick_count s =
      let t = u32 (env.ticks_now s.log) in (t, record s { log = Call.tick_count t ∷ s.log })

  -- `xQueueSend`; the call is recorded by `item`, which holds the message.
  abbrev pub queue_send : Queue → (Bool → Call) → State Sys Bool
  queue_send q item s = let b = env.queue_send q s.log in (b, record s { log = item b ∷ s.log })

  abbrev pub sem_take : ℕ → Timeout → State Sys Bool
  sem_take h t s =
      let b = env.sem_taken s.log h in (b, record s { log = Call.sem_take h t b ∷ s.log })

  abbrev pub sem_count : ℕ → State Sys ℕ
  sem_count h s =
      let n = env.sem_counts s.log h in (n, record s { log = Call.sem_count h n ∷ s.log })

  abbrev pub sem_create : State Sys (Option ℕ)
  sem_create s = let h = env.sem_new s.log in (h, record s { log = Call.sem_create h ∷ s.log })

  -- The radio's transmit function.
  abbrev pub wifi_tx_raw : List ℕ → State Sys Err
  wifi_tx_raw frame s =
      let r = env.wifi_result s.log frame in (r, record s { log = Call.wifi_tx frame r ∷ s.log })

abbrev pub sem_give : ℕ → State Sys (Unit {0})
sem_give h = record_call (Call.sem_give h)

abbrev pub is_ok : Err → Bool
is_ok Err.esp_ok = true
is_ok _ = false
