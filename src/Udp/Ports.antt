-- ===== src/Udp/Ports.antt =====
-- udp.c: which ports can be found.
use ip.Base.{ℕ, ◌≤◌, ◌<◌, ◌≡◌, ◌≢◌, arith, List, [], ◌∷◌, none, some, u8, inl, inr, Option-cases}
use ip.Os.{UdpPort}
use ip.Udp.{lookup_port, find_port, place_port}

lookup_port-number :
    (n : ℕ) (ports : List UdpPort) (p : UdpPort) → lookup_port n ports ≡ some p → p.port_number ≡ n
unfolding lookup_port
lookup_port-number n [] p h = cc
lookup_port-number n (q ∷ ps) p h = ground (arith, lookup_port-number n ps p)

-- A UDP port with a number above 255 is found by no datagram, not even by one that carries its
-- number.
pub find_port_misses_wide :
    (n : ℕ) (ports : List UdpPort) (p : UdpPort) → 256 ≤ p.port_number → find_port n ports ≢ some p
unfolding find_port
find_port_misses_wide n ports p wide found = omega (arith, lookup_port-number (u8 n) ports p found)

lookup_port-place_port :
    (p : UdpPort) (ports ports' : List UdpPort)
    → p.port_number ≢ 0
    → lookup_port p.port_number ports ≡ none
    → place_port p ports ≡ some ports'
    → lookup_port p.port_number ports' ≡ some p
unfolding lookup_port place_port
lookup_port-place_port p [] ports' nz new h = ground arith
lookup_port-place_port p (q ∷ qs) ports' nz new h = elim (Option-cases (place_port p qs)) [
  | inl full ↦ ground arith
  | inr (rest, placed) ↦ ground (arith, lookup_port-place_port p qs rest nz)
]

-- A UDP port with a number from 1 to 255 that is not in the table yet is found once it is
-- allocated.
pub find_port-place_port :
    (p : UdpPort) (ports ports' : List UdpPort)
    → p.port_number ≢ 0
    → p.port_number < 256
    → find_port p.port_number ports ≡ none
    → place_port p ports ≡ some ports'
    → find_port p.port_number ports' ≡ some p
unfolding find_port
find_port-place_port p ports ports' nz narrow new placed =
    rw same (lookup_port-place_port p ports ports' nz (rw same at new) placed)
  where
    same : u8 p.port_number ≡ p.port_number
    same = omega arith
