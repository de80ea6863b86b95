-- ===== src/Tests/Links.antt =====
-- Examples of the theorems on utility/, eth.c and arp.c.
use ip.Base.{ℕ, ◌≡◌, refl, arith, List, [], ◌∷◌, ◌++◌, some, length, u16, ◌>>>◌, ◌-◌, ◌⊎◌}
use ip.Utility.Types.{ip_zero, mac_zero}
use ip.Utility.Endian.{htons, put16}
use ip.Utility.Checksum.{fold, net_checksum}
use ip.Utility.Checksum.Fold.{folded, fold_lem}
use ip.Utility.Checksum.Sum.{IsBytes, be_sum, net_checksum-eq-folded}
use ip.Utility.Checksum.Verify.{even_nil, even_cons, net_checksum_filled}
use ip.Os.{ArpEntry, ArpRequest}
use ip.Arp.Cache.{insert_entry, get_cached}
use ip.Arp.Cache.Laws.{IsCache, get_cached-insert_entry, get_cached-insert_entry_ne}
use ip.Arp.Task.{handle_request}
use ip.Arp.Pending.Requests.{LetGo, WaitsFor, no_request_lost}
use ip.Tests.Setup.{granting, own_ip, peer_ip, own_mac, boot}

fold_lem_example : fold 4 200000 (u16 (200000 >>> 16)) ≡ (folded 200000, 0)
fold_lem_example = fold_lem 1 200000 (omega arith)

abbrev three_bytes : List ℕ
three_bytes = 0x45 ∷ 0 ∷ 0xff ∷ []

three_bytes-IsBytes : IsBytes three_bytes
three_bytes-IsBytes = omega arith

net_checksum-eq-folded_example : net_checksum three_bytes 3 ≡ 65535 - folded (be_sum three_bytes)
net_checksum-eq-folded_example =
    net_checksum-eq-folded three_bytes three_bytes-IsBytes (omega arith)

net_checksum_filled_example :
    let sum = net_checksum ((8 ∷ 0 ∷ []) ++ (0 ∷ 0 ∷ three_bytes)) 7 in
    let filled = (8 ∷ 0 ∷ []) ++ put16 (htons sum) three_bytes in
    net_checksum filled (length filled) ≡ 0
net_checksum_filled_example =
    net_checksum_filled (8 ∷ 0 ∷ []) three_bytes (even_cons 8 0 even_nil) (omega arith)
      three_bytes-IsBytes (omega arith)

abbrev peer_entry : ArpEntry
peer_entry = record { ip = peer_ip; mac = own_mac }

boot-IsCache : IsCache boot.ip_mac_cache 0
boot-IsCache = record { sixteen = refl; in_range = omega arith }

get_cached-insert_entry_example :
    get_cached peer_ip (insert_entry peer_entry boot.ip_mac_cache 0).0 ≡ some own_mac
get_cached-insert_entry_example =
    get_cached-insert_entry peer_entry boot.ip_mac_cache 0 boot-IsCache

get_cached-insert_entry_ne_example :
    get_cached own_ip (insert_entry peer_entry boot.ip_mac_cache 0).0
    ≡ get_cached own_ip boot.ip_mac_cache
get_cached-insert_entry_ne_example =
    get_cached-insert_entry_ne peer_entry own_ip boot.ip_mac_cache 0
      (record { ip = ip_zero; mac = mac_zero }) boot-IsCache refl (ground arith) (ground arith)

abbrev peer_request : ArpRequest
peer_request = record { ip = peer_ip; task = 5 }

no_request_lost_example :
    LetGo 5 (handle_request granting peer_request boot).1
    ⊎ WaitsFor peer_ip 5 (handle_request granting peer_request boot).1
no_request_lost_example = no_request_lost granting peer_request boot
