-- ===== src/Utility/Types.antt =====
-- components/net_stack/utility/net_types.h: addresses, compared as `memcmp` compares their bytes
-- and copied to byte buffers as `memcpy` copies them.
use ip.Base.{ℕ, ◌+◌, ◌≡◌, ◌↔◌, arith, Bool, true, ◌&&◌, ◌==◌, List, ◌∷◌, get_or}

-- `ipv4_addr_t`, byte by byte.
pub record Ipv4Addr : Type 0 where
  pub i0 : ℕ
  pub i1 : ℕ
  pub i2 : ℕ
  pub i3 : ℕ

-- `mac_addr_t`, byte by byte.
pub record MacAddr : Type 0 where
  pub m0 : ℕ
  pub m1 : ℕ
  pub m2 : ℕ
  pub m3 : ℕ
  pub m4 : ℕ
  pub m5 : ℕ

-- `struct net_context_t`.
pub record NetContext : Type 0 where
  pub mac : MacAddr
  pub ip : Ipv4Addr

-- `memcmp(a, b, 4) == 0`.
unfoldable pub ip_eq : Ipv4Addr → Ipv4Addr → Bool
ip_eq a b = a.i0 == b.i0 && a.i1 == b.i1 && a.i2 == b.i2 && a.i3 == b.i3

pub ip_eq_iff : (a b : Ipv4Addr) → (ip_eq a b ≡ true) ↔ (a ≡ b)
unfolding ip_eq
ip_eq_iff a b = (λ h. ground arith, λ h. ground arith)

-- `{0, 0, 0, 0}`.
abbrev pub ip_zero : Ipv4Addr
ip_zero = record { i0 = 0; i1 = 0; i2 = 0; i3 = 0 }

abbrev pub mac_zero : MacAddr
mac_zero = record { m0 = 0; m1 = 0; m2 = 0; m3 = 0; m4 = 0; m5 = 0 }

-- The bytes in memory, in front of those that follow.
abbrev pub put_ip : Ipv4Addr → List ℕ → List ℕ
put_ip a rest = a.i0 ∷ a.i1 ∷ a.i2 ∷ a.i3 ∷ rest

abbrev pub put_mac : MacAddr → List ℕ → List ℕ
put_mac m rest = m.m0 ∷ m.m1 ∷ m.m2 ∷ m.m3 ∷ m.m4 ∷ m.m5 ∷ rest

-- The address that stands at an offset of a buffer (in range: the callers check).
abbrev pub ip_at : List ℕ → ℕ → Ipv4Addr
ip_at buf o = record {
  i0 = get_or buf o 0;
  i1 = get_or buf (o + 1) 0;
  i2 = get_or buf (o + 2) 0;
  i3 = get_or buf (o + 3) 0;
}

abbrev pub mac_at : List ℕ → ℕ → MacAddr
mac_at buf o = record {
  m0 = get_or buf o 0;
  m1 = get_or buf (o + 1) 0;
  m2 = get_or buf (o + 2) 0;
  m3 = get_or buf (o + 3) 0;
  m4 = get_or buf (o + 4) 0;
  m5 = get_or buf (o + 5) 0;
}
