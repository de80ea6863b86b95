-- ===== src/Tcp/Ports/Reset.antt =====
-- tcp.c: what `tcp_reset_port` leaves of a port, and the calls that it makes.
use ip.Base.{
  ℕ, zero, suc, ◌+◌, ◌-◌, ◌<◌, ◌≡◌, refl, ap, arith, if◌then◌else◌, List, [], ◌∷◌, ◌++◌, Option,
  none, some, skip, length, get_or-set_self, set, set-set, replicate, u8, u32,
}
use mathlib.Core.List.{append_assoc}
use ip.Os.{Buf, Env, Call}
use ip.Sys.{Sys, Port, Unacked, closed, port_zero, free_buf, max_unacked}
use ip.Tcp.Ports.{port_at, reset_slots, give_times, tcp_reset_port}

-- The slots after a reset: what they held is gone, and `in_use` stays.
abbrev pub reset_unacked : List Unacked → List Unacked
reset_unacked [] = []
reset_unacked (u ∷ us) = (if u.in_use then record u { payload = none } else u) ∷ reset_unacked us

abbrev pub free_calls : Option Buf → List Call
free_calls none = []
free_calls (some b) = Call.free b.addr ∷ []

-- One `free` for each payload of a slot in use, newest first.
abbrev pub reset_frees : List Unacked → List Call
reset_frees [] = []
reset_frees (u ∷ us) = reset_frees us ++ (if u.in_use then free_calls u.payload else [])

reset_slots_lem :
    (us : List Unacked) (s : Sys)
    → reset_slots us s ≡ (reset_unacked us, record s { log = reset_frees us ++ s.log })
unfolding reset_slots
reset_slots_lem [] s = refl
reset_slots_lem (u ∷ us) s = ground (
  arith,
  released,
  reset_slots_lem us s,
  reset_slots_lem us (record s { log = calls ++ s.log }),
  append_assoc (reset_frees us) calls s.log,
)
  where
    calls : List Call
    calls = if u.in_use then free_calls u.payload else []

    released :
        (if u.in_use then free_buf u.payload else skip) s ≡ (tt, record s { log = calls ++ s.log })
    released = ground arith

replicate_end {ℓ} :
    {A : Type ℓ} (n : ℕ) (a : A) (xs : List A) → replicate n a ++ (a ∷ xs) ≡ a ∷ replicate n a ++ xs
replicate_end zero a xs = refl
replicate_end (suc n) a xs = ap (λ t. a ∷ t) (replicate_end n a xs)

give_times_lem :
    (n h : ℕ) (s : Sys)
    → give_times n h s ≡ (tt, record s { log = replicate n (Call.sem_give h) ++ s.log })
unfolding give_times
give_times_lem zero h s = refl
give_times_lem (suc n) h s =
    rw (give_times_lem n h (record s { log = Call.sem_give h ∷ s.log }), replicate_end)

-- The port after a reset.
abbrev pub reset_port : Port → Port
reset_port p = record p { state = closed; self_port_num = 0; unacked = reset_unacked p.unacked }

-- The calls of a reset, newest first: the payloads are freed, as many waiting tasks as the
-- semaphore's count says are let go, and the semaphore is deleted.
abbrev pub reset_calls : Env → Port → Sys → List Call
reset_calls env p s =
    let freed = reset_frees p.unacked ++ s.log in
    let count = env.sem_counts freed p.unacked_slots in
    Call.sem_delete p.unacked_slots
      ∷ replicate (u8 (max_unacked + 4294967296 - u32 count)) (Call.sem_give p.unacked_slots)
    ++ (Call.sem_count p.unacked_slots count ∷ freed)

-- A reset closes a port of the table and makes its entry free for a new one, frees what its slots
-- hold, each once, lets the waiting tasks go before the semaphore is deleted, and changes no other
-- port.
pub tcp_reset_port_lem :
    (env : Env) (i : ℕ) (s : Sys)
    → i < length s.ports
    → tcp_reset_port env i s ≡ (
      tt,
      record s {
        ports = set s.ports i (reset_port (port_at s.ports i));
        log = reset_calls env (port_at s.ports i) s;
      },
    )
unfolding tcp_reset_port
tcp_reset_port_lem env i s lt = rw (
  get_or-set_self s.ports i shut port_zero lt,
  reset_slots_lem (port_at s.ports i).unacked (record s { ports = set s.ports i shut }),
  get_or-set_self s.ports i shut port_zero lt,
  give_times_lem,
  set-set s.ports i,
)
  where
    shut : Port
    shut = record (port_at s.ports i) { state = closed; self_port_num = 0 }
