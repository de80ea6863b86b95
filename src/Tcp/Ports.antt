-- ===== src/Tcp/Ports.antt =====
-- tcp.c: the port table and the slots of unacknowledged segments. A `struct tcp_port_t*` into
-- `ports` is the port's index.
pub mod Find
pub mod Reset
pub mod Touch
use ip.Base.{
  ℕ, zero, suc, ◌+◌, ◌-◌, Bool, true, false, ◌&&◌, ◌==◌, if◌then◌else◌, not, List, [], ◌∷◌, Option,
  none, some, State, ◌>>=◌, ◌>>◌, return, skip, get, modify, get_or, set, u8, u32, search_from,
}
use ip.Utility.Types.{Ipv4Addr, ip_eq, ip_zero}
use ip.Os.{Buf, Env, Call}
use ip.Sys.{
  Sys, Port, Unacked, TcpState, closed, listen, port_zero, unacked_zero, max_unacked, record_call,
  free_buf, sem_give, sem_count,
}

abbrev pub max_ports : ℕ
max_ports = 8

-- `ports[i]`.
abbrev pub port_at : List Port → ℕ → Port
port_at ports i = get_or ports i port_zero

abbrev pub unacked_at : Port → ℕ → Unacked
unacked_at p j = get_or p.unacked j unacked_zero

-- A write through a pointer to `ports[i]`.
abbrev pub update_port : ℕ → (Port → Port) → State Sys (Unit {0})
update_port i f = modify (λ s. record s { ports = set s.ports i (f (port_at s.ports i)) })

abbrev pub is_listen : TcpState → Bool
is_listen listen = true
is_listen _ = false

-- The connection that a port is in.
unfoldable pub matches : ℕ → ℕ → Ipv4Addr → Port → Bool
matches self other addr p =
    p.self_port_num == self && p.other_port_num == other && ip_eq p.other_ipv4_addr addr

unfoldable pub listens : ℕ → Port → Bool
listens self p = p.self_port_num == self && is_listen p.state && ip_eq p.other_ipv4_addr ip_zero

unfoldable pub find_port : ℕ → ℕ → Ipv4Addr → List Port → Option ℕ
unfolding search_from matches
find_port self other addr ports = search_from (matches self other addr) 0 ports

unfoldable pub find_listening_port : ℕ → List Port → Option ℕ
unfolding search_from listens
find_listening_port self ports = search_from (listens self) 0 ports

abbrev pub is_empty : Unacked → Bool
is_empty u = not u.in_use

unfoldable pub find_empty_unacked : Port → Option ℕ
unfolding search_from
find_empty_unacked p = search_from is_empty 0 p.unacked

count_in_use : List Unacked → ℕ → ℕ
count_in_use [] count = count
count_in_use (u ∷ us) count = count_in_use us (if u.in_use then u8 (count + 1) else count)

unfoldable pub get_unacked_count : Port → ℕ
unfolding count_in_use
get_unacked_count p = count_in_use p.unacked 0

-- The loop of `tcp_reset_port` over the slots: it frees what they hold, and leaves `in_use`.
unfoldable pub reset_slots : List Unacked → State Sys (List Unacked)
reset_slots [] = return []
reset_slots (u ∷ us) = do
  if u.in_use then free_buf u.payload else skip
  rest ← reset_slots us
  return ((if u.in_use then record u { payload = none } else u) ∷ rest)

-- `n` times `xSemaphoreGive`.
unfoldable pub give_times : ℕ → ℕ → State Sys (Unit {0})
give_times zero h = skip
give_times (suc n) h = do sem_give h; give_times n h

unfoldable pub tcp_reset_port : Env → ℕ → State Sys (Unit {0})
tcp_reset_port env i = do
  update_port i (λ p. record p { state = closed; self_port_num = 0 })
  s ← get
  let p = port_at s.ports i
  slots ← reset_slots p.unacked
  update_port i (λ q. record q { unacked = slots })
  count ← sem_count env p.unacked_slots
  give_times (u8 (max_unacked + 4294967296 - u32 count)) p.unacked_slots
  record_call (Call.sem_delete p.unacked_slots)

-- Overwrites a port with self_port_num = 0.
unfoldable pub allocate_port : Port → State Sys (Option ℕ)
unfolding search_from
allocate_port port s = elim (search_from (λ p. p.self_port_num == 0) 0 s.ports) [
  | none ↦ (none, s)
  | some i ↦ (some i, record s { ports = set s.ports i port })
]
