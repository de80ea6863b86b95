-- ===== src/Tcp/Ports/Find.antt =====
-- tcp.c: what the searches through the port table and the slots find.
use ip.Base.{IsFirst, search_iff, ℕ, ◌≡◌, ◌↔◌, arith, true, false, List, some}
use ip.Utility.Types.{Ipv4Addr, ip_eq_iff, ip_zero}
use ip.Sys.{Port, Unacked, TcpState, listen}
use ip.Tcp.Ports.{
  matches, listens, is_listen, find_port, find_listening_port, find_empty_unacked, is_empty,
}

-- The port belongs to the connection.
abbrev pub IsConnection : ℕ → ℕ → Ipv4Addr → Port → Type 0
IsConnection self other addr p =
    (p.self_port_num ≡ self) × (p.other_port_num ≡ other) × (p.other_ipv4_addr ≡ addr)

matches_iff :
    (self other : ℕ) (addr : Ipv4Addr) (p : Port)
    → (matches self other addr p ≡ true) ↔ IsConnection self other addr p
unfolding matches
matches_iff self other addr p = (
  λ h. (ground arith, ground arith, (ip_eq_iff p.other_ipv4_addr addr).0 (ground arith)),
  λ h. ground (arith, (ip_eq_iff p.other_ipv4_addr addr).1 h.2),
)

-- find_port returns an index exactly when the port there is the first of the connection.
pub find_port_iff :
    (self other : ℕ) (addr : Ipv4Addr) (ports : List Port) (i : ℕ)
    → (find_port self other addr ports ≡ some i) ↔ IsFirst (IsConnection self other addr) ports i
unfolding find_port
find_port_iff self other addr ports i =
    search_iff (matches self other addr) (IsConnection self other addr)
      (matches_iff self other addr) i ports

-- A slot holds no segment.
abbrev pub IsEmptySlot : Unacked → Type 0
IsEmptySlot u = u.in_use ≡ false

-- find_empty_unacked returns an index exactly when the slot there is the first empty one.
pub find_empty_unacked_iff :
    (p : Port) (j : ℕ) → (find_empty_unacked p ≡ some j) ↔ IsFirst IsEmptySlot p.unacked j
unfolding find_empty_unacked
find_empty_unacked_iff p j =
    search_iff is_empty IsEmptySlot (λ u. (λ h. ground arith, λ h. ground arith)) j p.unacked

-- The port waits for connections on a number.
abbrev pub IsListening : ℕ → Port → Type 0
IsListening self p = (p.self_port_num ≡ self) × (p.state ≡ listen) × (p.other_ipv4_addr ≡ ip_zero)

is_listen_iff : (t : TcpState) → (is_listen t ≡ true) ↔ (t ≡ listen)
is_listen_iff t = (λ h. ground arith, λ h. ground arith)

listens_iff : (self : ℕ) (p : Port) → (listens self p ≡ true) ↔ IsListening self p
unfolding listens
listens_iff self p = (
  λ h. (ground arith, ground arith, (ip_eq_iff p.other_ipv4_addr ip_zero).0 (ground arith)),
  λ h. ground (arith, (ip_eq_iff p.other_ipv4_addr ip_zero).1 h.2),
)

-- find_listening_port returns an index exactly when the port there is the first that listens on
-- the number.
pub find_listening_port_iff :
    (self : ℕ) (ports : List Port) (i : ℕ)
    → (find_listening_port self ports ≡ some i) ↔ IsFirst (IsListening self) ports i
unfolding find_listening_port
find_listening_port_iff self ports i =
    search_iff (listens self) (IsListening self) (listens_iff self) i ports
