-- ===== src/Utility/Debug.antt =====
-- components/net_stack/utility/debug.c: addresses as text, for the log.
use ip.Base.{ℕ, ◌+◌, ◌≤◌, ◌<◌, ◌≡◌, arith, List, [], ◌∷◌, ◌++◌, length, length-append}
use ip.Utility.Types.{Ipv4Addr, MacAddr, put_ip, put_mac}
use ip.Utility.Checksum.Sum.{IsBytes}
use ip.Utility.Print.{dec, hex, dec-length, hex-length}
use ip.Utility.Print.Fields.{
  read_fields, read_fields-dec, read_fields-dec_last, read_fields-hex, read_fields-hex_last,
}

-- `ipv4_to_readable`, the text without the 0 that ends it.
unfoldable pub ipv4_to_readable : Ipv4Addr → List ℕ
ipv4_to_readable a = dec a.i0 ++ (46 ∷ dec a.i1 ++ (46 ∷ dec a.i2 ++ (46 ∷ dec a.i3)))

-- `mac_to_readable`.
unfoldable pub mac_to_readable : MacAddr → List ℕ
mac_to_readable m =
    hex m.m0
    ++ (58 ∷ hex m.m1 ++ (58 ∷ hex m.m2 ++ (58 ∷ hex m.m3 ++ (58 ∷ hex m.m4 ++ (58 ∷ hex m.m5)))))

-- The address as bytes.
abbrev pub ip_bytes : Ipv4Addr → List ℕ
ip_bytes a = put_ip a []

abbrev pub mac_bytes : MacAddr → List ℕ
mac_bytes m = put_mac m []

-- For addresses made of bytes, the numbers in their texts are the addresses.
pub readable-read :
    (a : Ipv4Addr) (m : MacAddr)
    → IsBytes (ip_bytes a)
    → IsBytes (mac_bytes m)
    → (read_fields 10 46 0 (ipv4_to_readable a) ≡ ip_bytes a)
      × (read_fields 16 58 0 (mac_to_readable m) ≡ mac_bytes m)
unfolding ipv4_to_readable mac_to_readable
readable-read a m h k = (
  rw (
    read_fields-dec a.i0 _ h.0,
    read_fields-dec a.i1 _ h.1.0,
    read_fields-dec a.i2 _ h.1.1.0,
    read_fields-dec_last a.i3 h.1.1.1.0,
  ),
  rw (
    read_fields-hex m.m0 _ k.0,
    read_fields-hex m.m1 _ k.1.0,
    read_fields-hex m.m2 _ k.1.1.0,
    read_fields-hex m.m3 _ k.1.1.1.0,
    read_fields-hex m.m4 _ k.1.1.1.1.0,
    read_fields-hex_last m.m5 k.1.1.1.1.1.0,
  ),
)

join-length :
    (k n c : ℕ) (s t : List ℕ) → length s ≤ k → length t ≤ n → length (s ++ (c ∷ t)) ≤ k + 1 + n
join-length k n c s t hs ht = omega (arith, length-append s (c ∷ t))

-- For addresses made of bytes, the texts and the 0 that ends them fit the 16 bytes of arp_input
-- and the 18 bytes of wifi_rxcb.
pub readable-fits :
    (a : Ipv4Addr) (m : MacAddr)
    → IsBytes (ip_bytes a)
    → IsBytes (mac_bytes m)
    → (length (ipv4_to_readable a) + 1 ≤ 12 + 3 + 1) × (length (mac_to_readable m) + 1 ≤ 12 + 5 + 1)
unfolding ipv4_to_readable mac_to_readable
readable-fits a m h k = (omega (arith, dotted), omega (arith, coloned))
  where
    byte : (n : ℕ) → n < 256 → length (dec n) ≤ 3
    byte n lt = dec-length 2 n (omega arith)

    dotted :
        length (dec a.i0 ++ (46 ∷ dec a.i1 ++ (46 ∷ dec a.i2 ++ (46 ∷ dec a.i3))))
        ≤ 3 + 1 + (3 + 1 + (3 + 1 + 3))
    dotted = join-length _ _ 46 (dec a.i0) _ (byte a.i0 h.0) (
        join-length _ _ 46 (dec a.i1) _ (byte a.i1 h.1.0)
          (join-length _ _ 46 (dec a.i2) _ (byte a.i2 h.1.1.0) (byte a.i3 h.1.1.1.0)))

    pair : (n : ℕ) → n < 256 → length (hex n) ≤ 2
    pair n lt = hex-length 1 n lt

    coloned :
        length (
          hex m.m0
          ++ (58 ∷ hex m.m1
              ++ (58 ∷ hex m.m2 ++ (58 ∷ hex m.m3 ++ (58 ∷ hex m.m4 ++ (58 ∷ hex m.m5))))))
        ≤ 2 + 1 + (2 + 1 + (2 + 1 + (2 + 1 + (2 + 1 + 2))))
    coloned = join-length _ _ 58 (hex m.m0) _ (pair m.m0 k.0) (
        join-length _ _ 58 (hex m.m1) _ (pair m.m1 k.1.0) (
          join-length _ _ 58 (hex m.m2) _ (pair m.m2 k.1.1.0) (
            join-length _ _ 58 (hex m.m3) _ (pair m.m3 k.1.1.1.0)
              (join-length _ _ 58 (hex m.m4) _ (pair m.m4 k.1.1.1.1.0) (pair m.m5 k.1.1.1.1.1.0)))))
