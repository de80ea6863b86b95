-- ===== src/Apps/ArpScanner.antt =====
-- components/arp_scanner/src/arp_scanner.c: a scan of a network by ARP.
use mathlib.Core.List.{append_assoc}
use ip.Base.{
  ℕ, zero, suc, ◌≡◌, refl, ◌∙◌, sym, List, [], ◌∷◌, ◌++◌, Option, none, some, State, ◌>>=◌, ◌>>◌,
  return, skip,
}
use ip.Utility.Types.{Ipv4Addr, MacAddr}
use ip.Utility.Debug.{ipv4_to_readable, mac_to_readable}
use ip.Os.{Env, Call, Log}
use ip.Sys.{Sys, CacheRow}
use ip.Arp.Task.{arp_get_mac_addr, arp_get_cached_mac_addr}

-- What is logged for an address: its text, and that of the MAC if one was found.
pub record Finding : Type 0 where
  pub readable_ip : List ℕ
  pub readable_mac : Option (List ℕ)

-- `192.168.50.i`.
abbrev pub scanned : ℕ → Ipv4Addr
scanned i = record { i0 = 192; i1 = 168; i2 = 50; i3 = i }

abbrev pub finding : ℕ → Option MacAddr → Finding
finding i none = record { readable_ip = ipv4_to_readable (scanned i); readable_mac = none }
finding i (some mac) = record {
  readable_ip = ipv4_to_readable (scanned i);
  readable_mac = some (mac_to_readable mac);
}

-- The loop of `begin_scan` from `i` on. While the task waits for address `i`, the table changes by
-- `meanwhile i`.
unfoldable pub scan_from :
    Env → (ℕ → List CacheRow → List CacheRow) → ℕ → ℕ → ℕ → State Sys (List Finding)
scan_from env meanwhile task zero i = return []
scan_from env meanwhile task (suc left) i = do
  mac ← arp_get_mac_addr env (meanwhile i) task (scanned i)
  rest ← scan_from env meanwhile task left (suc i)
  return (finding i mac ∷ rest)

-- `begin_scan`: from 1 up to 254.
unfoldable pub begin_scan : Env → (ℕ → List CacheRow → List CacheRow) → ℕ → State Sys (List Finding)
begin_scan env meanwhile task = scan_from env meanwhile task 254 1

-- `wifi_connect_event`, which the event loop calls.
unfoldable pub scan_connect_event :
    Env → (ℕ → List CacheRow → List CacheRow) → ℕ → State Sys (Unit {0})
scan_connect_event env meanwhile task = do begin_scan env meanwhile task; skip

-- The addresses that a log asks the ARP task for, newest first.
abbrev pub requested : Log → List Ipv4Addr
requested [] = []
requested (Call.send_arp_request_queue r t ok ∷ calls) = r.ip ∷ requested calls
requested (c ∷ calls) = requested calls

-- The addresses from `192.168.50.i` on, the last one first.
abbrev pub hosts_down : ℕ → ℕ → List Ipv4Addr
hosts_down zero i = []
hosts_down (suc left) i = hosts_down left (suc i) ++ (scanned i ∷ [])

scan_from-requested :
    (env : Env) (meanwhile : ℕ → List CacheRow → List CacheRow) (task left i : ℕ) (s : Sys)
    → requested (scan_from env meanwhile task left i s).1.log ≡ hosts_down left i ++ requested s.log
unfolding scan_from arp_get_mac_addr arp_get_cached_mac_addr
scan_from-requested env meanwhile task zero i s = refl
scan_from-requested env meanwhile task (suc left) i s =
    scan_from-requested env meanwhile task left (suc i)
      (arp_get_mac_addr env (meanwhile i) task (scanned i) s).1
    ∙ sym (append_assoc (hosts_down left (suc i)) (scanned i ∷ []) (requested s.log))

abbrev pub readable_ips : List Finding → List (List ℕ)
readable_ips [] = []
readable_ips (f ∷ fs) = f.readable_ip ∷ readable_ips fs

-- The texts of the addresses from `192.168.50.i` on.
abbrev pub host_texts : ℕ → ℕ → List (List ℕ)
host_texts zero i = []
host_texts (suc left) i = ipv4_to_readable (scanned i) ∷ host_texts left (suc i)

finding-readable_ip :
    (i : ℕ) (mac : Option MacAddr) → (finding i mac).readable_ip ≡ ipv4_to_readable (scanned i)
finding-readable_ip i none = refl
finding-readable_ip i (some mac) = refl

scan_from-texts :
    (env : Env) (meanwhile : ℕ → List CacheRow → List CacheRow) (task left i : ℕ) (s : Sys)
    → readable_ips (scan_from env meanwhile task left i s).0 ≡ host_texts left i
unfolding scan_from
scan_from-texts env meanwhile task zero i s = refl
scan_from-texts env meanwhile task (suc left) i s =
    let (mac, t) = arp_get_mac_addr env (meanwhile i) task (scanned i) s in
    rw (finding-readable_ip i mac, scan_from-texts env meanwhile task left (suc i) t)

-- A scan asks for each of the 254 hosts once, in ascending order, and logs each, whatever the ARP
-- task finds out.
pub begin_scan_complete :
    (env : Env) (meanwhile : ℕ → List CacheRow → List CacheRow) (task : ℕ) (s : Sys)
    → (requested (begin_scan env meanwhile task s).1.log ≡ hosts_down 254 1 ++ requested s.log)
      × (readable_ips (begin_scan env meanwhile task s).0 ≡ host_texts 254 1)
unfolding begin_scan
begin_scan_complete env meanwhile task s =
    (scan_from-requested env meanwhile task 254 1 s, scan_from-texts env meanwhile task 254 1 s)
