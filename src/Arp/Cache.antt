-- ===== src/Arp/Cache.antt =====
-- arp.c: the table `ip_mac_cache`.
pub mod Laws
use ip.Base.{
  ℕ, zero, suc, ◌+◌, ◌%◌, leb, if◌then◌else◌, List, [], ◌∷◌, Option, none, some, set, Bool,
}
use ip.Utility.Types.{Ipv4Addr, MacAddr, ip_eq}
use ip.Os.{ArpEntry}
use ip.Sys.{Sys, CacheRow}

abbrev pub ip_mac_cache_length : ℕ
ip_mac_cache_length = 16

-- The search of `arp_get_cached_mac_addr`: `none` is ESP_FAIL, `some` the address that goes out.
unfoldable pub get_cached : Ipv4Addr → List CacheRow → Option MacAddr
get_cached ip [] = none
get_cached ip (r ∷ rs) = if ip_eq ip r.ip then some r.mac else get_cached ip rs

-- The loop that updates the first row for the address; `none` if there is no such row.
unfoldable pub update_row : ArpEntry → List CacheRow → Option (List CacheRow)
update_row e [] = none
update_row e (r ∷ rs) =
    if ip_eq e.ip r.ip
    then some (record r { mac = e.mac } ∷ rs)
    else (elim (update_row e rs) [ none ↦ none | some rest ↦ some (r ∷ rest) ])

-- The row that a new entry overwrites: `ip_mac_cache_top`, set back where it has run off the end.
abbrev pub insert_index : ℕ → ℕ
insert_index top = if leb ip_mac_cache_length top then 0 else top

-- The table part of `add_ip_mac_cache_entry`: the rows and the new `ip_mac_cache_top`.
unfoldable pub insert_entry : ArpEntry → List CacheRow → ℕ → List CacheRow × ℕ
insert_entry e rows top = elim (update_row e rows) [
  | some updated ↦ (updated, top)
  | none ↦ (
    set rows (insert_index top) (record { ip = e.ip; mac = e.mac }),
    (insert_index top + 1) % ip_mac_cache_length,
  )
]
