-- ===== src/Tcp/Send/Ownership.antt =====
-- tcp.c: what becomes of the payload that an application hands to `tcp_send`.
use ip.Base.{
  ℕ, ◌≡◌, ◌≢◌, refl, arith, true, false, Bool-cases, Option-cases, ◌⊎◌, inl, inr, List, [], ◌∷◌,
  ◌++◌, some,
}
use ip.Utility.Types.{Ipv4Addr}
use ip.Os.{Buf, Env, Call, Timeout, Err, TcpParams, Queue, Log}
use ip.Sys.{Sys, Port, is_closed}
use ip.Tcp.Ports.{port_at, find_port}
use ip.Tcp.Send.{enqueue_taken, tcp_enqueue_reliable, tcp_send, ack_psh}

-- Calls among which no block is freed or handed to the TCP task.
abbrev pub IsQuiet : List Call → Type 0
IsQuiet [] = Unit
IsQuiet (Call.free a ∷ calls) = ⊥
IsQuiet (Call.send_tcp_queue p t true ∷ calls) = ⊥
IsQuiet (c ∷ calls) = IsQuiet calls

-- The block has been put on the queue of the TCP task, last of all.
abbrev pub Queued : Buf → Log → Err × Sys → Type 0
Queued b before r =
    (r.0 ≡ Err.esp_ok)
    × ((p : TcpParams) × (calls : List Call) × (p.payload ≡ some b)
        × IsQuiet calls
        × (r.1.log ≡ Call.send_tcp_queue p Timeout.no_wait true ∷ (calls ++ before)))

-- The block has been freed, last of all.
abbrev pub Freed : Buf → Log → Err × Sys → Type 0
Freed b before r =
    (r.0 ≢ Err.esp_ok)
    × ((calls : List Call) × IsQuiet calls × (r.1.log ≡ Call.free b.addr ∷ (calls ++ before)))

abbrev pub Owned : Buf → Log → Err × Sys → Type 0
Owned b before r = Queued b before r ⊎ Freed b before r

enqueue_taken-Owned :
    (env : Env) (p : TcpParams) (i : ℕ) (b : Buf) (h : ℕ) (t : Timeout) (before : Log) (s : Sys)
    → p.payload ≡ some b
    → s.log ≡ Call.sem_take h t true ∷ before
    → Owned b before (enqueue_taken env p i s)
unfolding enqueue_taken
enqueue_taken-Owned env p i b h t before s held log =
    elim (Bool-cases (is_closed (port_at s.ports i).state)) [
      | inl gone ↦
          rw (gone, held, log) (inr (λ e. ground arith, (Call.sem_take h t true ∷ [], tt, refl)))
      | inr still_open ↦ elim (Bool-cases (env.queue_send Queue.tcp_send_queue s.log)) [
        | inl sent ↦
            rw (still_open, sent, log)
              (inl (refl, (p, Call.sem_take h t true ∷ [], held, tt, refl)))
        | inr full ↦
            rw (still_open, full, held, log)
              (inr (
                λ e. ground arith,
                (
                  Call.sem_give (port_at s.ports i).unacked_slots
                      ∷ Call.send_tcp_queue (record p { payload = some b }) Timeout.no_wait false
                      ∷ Call.sem_take h t true
                      ∷ [],
                  tt,
                  refl,
                ),
              ))
      ]
    ]

pub tcp_enqueue_reliable-Owned :
    (env : Env) (meanwhile : List Port → List Port) (p : TcpParams) (t : Timeout) (b : Buf)
    (s : Sys)
    → p.payload ≡ some b
    → Owned b s.log (tcp_enqueue_reliable env meanwhile p t s)
unfolding tcp_enqueue_reliable find_port
tcp_enqueue_reliable-Owned env meanwhile p t b s held =
    elim (Option-cases (find_port p.src_port p.dst_port p.dst_ipv4_addr s.ports)) [
      | inl gone ↦ rw (gone, held) (inr (λ e. ground arith, ([], tt, refl)))
      | inr (i, found) ↦ elim (Bool-cases (env.sem_taken s.log (port_at s.ports i).unacked_slots)) [
        | inl taken ↦
            rw (found, taken)
              (enqueue_taken-Owned env p i b (port_at s.ports i).unacked_slots t s.log
                (record s {
                  ports = meanwhile s.ports;
                  log = Call.sem_take (port_at s.ports i).unacked_slots t true ∷ s.log;
                })
                held refl)
        | inr waited ↦
            rw (found, waited, held)
              (inr (
                λ e. ground arith,
                (Call.sem_take (port_at s.ports i).unacked_slots t false ∷ [], tt, refl),
              ))
      ]
    ]

-- Whatever answers come and whatever the ports do meanwhile, a block that is handed to tcp_send is
-- put on the queue of the TCP task if the answer is ESP_OK, and freed otherwise, once, and last of
-- all.
pub tcp_send-Owned :
    (env : Env) (meanwhile : List Port → List Port) (src dst : ℕ) (ip : Ipv4Addr) (b : Buf)
    (len : ℕ) (t : Timeout) (s : Sys)
    → Owned b s.log (tcp_send env meanwhile src dst ip (some b) len t s)
unfolding tcp_send find_port
tcp_send-Owned env meanwhile src dst ip b len t s =
    elim (Option-cases (find_port src dst ip s.ports)) [
      | inl gone ↦ rw gone (inr (λ e. ground arith, ([], tt, refl)))
      | inr (i, found) ↦
          rw found
            (tcp_enqueue_reliable-Owned env meanwhile (params (port_at s.ports i)) t b s refl)
    ]
  where
    params : Port → TcpParams
    params port = record {
      dst_ipv4_addr = port.other_ipv4_addr;
      src_port = port.self_port_num;
      dst_port = port.other_port_num;
      seq_num = 0;
      control = ack_psh;
      is_retransmission = false;
      payload = some b;
      data_len = len;
    }
