-- ===== src/Arp/Cache/Laws.antt =====
-- arp.c: what the table answers after an entry has come in.
use ip.Base.{
  ℕ, zero, suc, ◌<◌, ◌≡◌, ◌≢◌, refl, arith, true, false, if◌then◌else◌, List, [], ◌∷◌, none, some,
  set, length, length-set, get_elem?, Bool-cases, Option-cases, inl, inr,
}
use ip.Utility.Types.{Ipv4Addr, ip_eq, ip_eq_iff}
use ip.Os.{ArpEntry}
use ip.Sys.{CacheRow}
use ip.Arp.Cache.{ip_mac_cache_length, get_cached, update_row, insert_index, insert_entry}

ip_eq_self : (a : Ipv4Addr) → ip_eq a a ≡ true
ip_eq_self a = (ip_eq_iff a a).1 refl

ip_eq-false : (a b : Ipv4Addr) → a ≢ b → ip_eq a b ≡ false
ip_eq-false a b ne = elim (Bool-cases (ip_eq a b)) [
  | inl e ↦ absurd (ne ((ip_eq_iff a b).0 e))
  | inr e ↦ e
]

-- An update keeps the number of rows, the address it is for is found with its MAC, and every other
-- address is answered as before.
get_cached-update_row :
    (e : ArpEntry) (ip : Ipv4Addr) (rows rows' : List CacheRow)
    → update_row e rows ≡ some rows'
    → get_cached ip rows' ≡ (if ip_eq ip e.ip then some e.mac else get_cached ip rows)
unfolding update_row get_cached
get_cached-update_row e ip [] rows' h = ground arith
get_cached-update_row e ip (r ∷ rs) rows' h = elim (Bool-cases (ip_eq e.ip r.ip)) [
  | inl here ↦ ground (arith, (ip_eq_iff e.ip r.ip).0 here)
  | inr there ↦ elim (Option-cases (update_row e rs)) [
    | inl missing ↦ ground arith
    | inr (rest, found) ↦ ground (
      arith,
      get_cached-update_row e ip rs rest found,
      ip_eq_iff ip e.ip,
      ip_eq_iff ip r.ip,
      ip_eq_iff e.ip r.ip,
    )
  ]
]

length-update_row :
    (e : ArpEntry) (rows rows' : List CacheRow)
    → update_row e rows ≡ some rows'
    → length rows' ≡ length rows
unfolding update_row
length-update_row e [] rows' h = ground arith
length-update_row e (r ∷ rs) rows' h = elim (Option-cases (update_row e rs)) [
  | inl missing ↦ ground arith
  | inr (rest, found) ↦ ground (arith, length-update_row e rs rest found)
]

-- With no row for the address, a row written for it is the first.
get_cached-set :
    (e : ArpEntry) (rows : List CacheRow) (i : ℕ)
    → i < length rows
    → update_row e rows ≡ none
    → get_cached e.ip (set rows i (record { ip = e.ip; mac = e.mac })) ≡ some e.mac
unfolding update_row get_cached
get_cached-set e [] i lt h = absurd (omega arith)
get_cached-set e (r ∷ rs) zero lt h = rw (ip_eq_self e.ip)
get_cached-set e (r ∷ rs) (suc i) lt h = elim (Option-cases (update_row e rs)) [
  | inl missing ↦ ground (arith, get_cached-set e rs i (omega arith) missing)
  | inr (rest, found) ↦ ground arith
]

-- Any other address is answered as before, unless the overwritten row was the one that answered.
get_cached-set_ne :
    (e : ArpEntry) (ip : Ipv4Addr) (rows : List CacheRow) (i : ℕ) (old : CacheRow)
    → ip ≢ e.ip
    → get_elem? rows i ≡ some old
    → ip ≢ old.ip
    → get_cached ip (set rows i (record { ip = e.ip; mac = e.mac })) ≡ get_cached ip rows
unfolding get_cached
get_cached-set_ne e ip [] i old ne at other = refl
get_cached-set_ne e ip (r ∷ rs) zero old ne at other = rw (ip_eq-false ip e.ip ne, skipped)
  where
    same : r ≡ old
    same = cc

    skipped : ip_eq ip r.ip ≡ false
    skipped = rw same (ip_eq-false ip old.ip other)
get_cached-set_ne e ip (r ∷ rs) (suc i) old ne at other =
    rw (get_cached-set_ne e ip rs i old ne at other)

-- What holds of the table between two entries.
pub record IsCache (rows : List CacheRow) (top : ℕ) : Type 0 where
  pub sixteen : length rows ≡ ip_mac_cache_length
  pub in_range : top < ip_mac_cache_length

-- An entry leaves a table of 16 rows with an index in range as such a table.
pub insert_entry-IsCache :
    (e : ArpEntry) (rows : List CacheRow) (top : ℕ)
    → IsCache rows top
    → let (rows', top') = insert_entry e rows top in IsCache rows' top'
unfolding insert_entry
insert_entry-IsCache e rows top v = elim (Option-cases (update_row e rows)) [
  | inl missing ↦
      ground (arith, length-set rows (insert_index top) (record { ip = e.ip; mac = e.mac }))
  | inr (updated, found) ↦ ground (arith, length-update_row e rows updated found)
]

-- After an entry has come in to a table of 16 rows, its address is answered with its MAC, whether
-- it was known before or takes the place of another.
pub get_cached-insert_entry :
    (e : ArpEntry) (rows : List CacheRow) (top : ℕ)
    → IsCache rows top
    → get_cached e.ip (insert_entry e rows top).0 ≡ some e.mac
unfolding insert_entry
get_cached-insert_entry e rows top v = elim (Option-cases (update_row e rows)) [
  | inl missing ↦ ground (arith, get_cached-set e rows top (omega (arith, v.sixteen)) missing)
  | inr (updated, found) ↦
      ground (arith, get_cached-update_row e e.ip rows updated found, ip_eq_self e.ip)
]

-- In a table of 16 rows an entry changes the answer for no address but its own and the one in the
-- row that it overwrites.
pub get_cached-insert_entry_ne :
    (e : ArpEntry) (ip : Ipv4Addr) (rows : List CacheRow) (top : ℕ) (old : CacheRow)
    → IsCache rows top
    → get_elem? rows top ≡ some old
    → ip ≢ e.ip
    → ip ≢ old.ip
    → get_cached ip (insert_entry e rows top).0 ≡ get_cached ip rows
unfolding insert_entry
get_cached-insert_entry_ne e ip rows top old v at ne other =
    elim (Option-cases (update_row e rows)) [
      | inl missing ↦ ground (arith, get_cached-set_ne e ip rows top old ne at other)
      | inr (updated, found) ↦
          ground (arith, get_cached-update_row e ip rows updated found, ip_eq-false ip e.ip ne)
    ]
