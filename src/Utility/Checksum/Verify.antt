-- ===== src/Utility/Checksum/Verify.antt =====
-- A receiver's test of a checksum that a sender filled in.
use ip.Base.{ℕ, ◌+◌, ◌-◌, ◌/◌, ◌%◌, ◌<◌, ◌≡◌, arith, List, [], ◌∷◌, ◌++◌, length, length-append}
use ip.Utility.Checksum.{net_checksum}
use ip.Utility.Endian.{put16, htons, put16-htons}
use ip.Utility.Checksum.Fold.{folded, folded-complement}
use ip.Utility.Checksum.Sum.{IsBytes, be_sum, net_checksum-eq-folded}

-- `xs` holds a whole number of words.
pub data IsEven : List ℕ → Type 0 where
  even_nil : IsEven []
  even_cons : (a b : ℕ) {xs : List ℕ} → IsEven xs → IsEven (a ∷ b ∷ xs)

pub be_sum-append :
    {xs : List ℕ} (ys : List ℕ) → IsEven xs → be_sum (xs ++ ys) ≡ be_sum xs + be_sum ys
be_sum-append ys even_nil = omega arith
be_sum-append ys (even_cons a b h) = omega (arith, be_sum-append ys h)

pub IsBytes-append : (xs ys : List ℕ) → IsBytes xs → IsBytes ys → IsBytes (xs ++ ys)
IsBytes-append [] ys h k = k
IsBytes-append (x ∷ xs) ys h k = (h.0, IsBytes-append xs ys h.1 k)

filled_lem :
    (xs ys : List ℕ) (c : ℕ)
    → IsEven xs
    → IsBytes xs
    → IsBytes ys
    → length xs + length ys + 2 < 65536
    → c ≡ 65535 - folded (be_sum xs + be_sum ys)
    → let filled = xs ++ (c / 256 % 256 ∷ c % 256 ∷ ys) in net_checksum filled (length filled) ≡ 0
filled_lem xs ys c even hx hy lt e = rw (
  net_checksum-eq-folded (xs ++ tail) (IsBytes-append xs tail hx (omega arith, (omega arith, hy)))
      (omega (arith, length-append xs tail)),
  total,
  folded-complement (be_sum xs + be_sum ys),
)
  where
    tail : List ℕ
    tail = c / 256 % 256 ∷ c % 256 ∷ ys

    total : be_sum (xs ++ tail) ≡ be_sum xs + be_sum ys + (65535 - folded (be_sum xs + be_sum ys))
    total = omega (arith, be_sum-append tail even)

zeroed_lem :
    (xs ys : List ℕ)
    → IsEven xs
    → IsBytes xs
    → IsBytes ys
    → length xs + length ys + 2 < 65536
    → let zeroed = xs ++ (0 ∷ 0 ∷ ys) in
      net_checksum zeroed (length zeroed) ≡ 65535 - folded (be_sum xs + be_sum ys)
zeroed_lem xs ys even hx hy lt = rw (
  net_checksum-eq-folded (xs ++ (0 ∷ 0 ∷ ys))
      (IsBytes-append xs (0 ∷ 0 ∷ ys) hx (omega arith, (omega arith, hy)))
      (omega (arith, length-append xs (0 ∷ 0 ∷ ys))),
  total,
)
  where
    total : be_sum (xs ++ (0 ∷ 0 ∷ ys)) ≡ be_sum xs + be_sum ys
    total = omega (arith, be_sum-append (0 ∷ 0 ∷ ys) even)

-- When the checksum of a packet of less than 65536 bytes, computed with a zero checksum field at
-- an even offset, is written into that field in network order, the checksum of the whole packet is
-- 0.
pub net_checksum_filled :
    (xs ys : List ℕ)
    → IsEven xs
    → IsBytes xs
    → IsBytes ys
    → length xs + length ys + 2 < 65536
    → let sum = net_checksum (xs ++ (0 ∷ 0 ∷ ys)) (length (xs ++ (0 ∷ 0 ∷ ys))) in
      let filled = xs ++ put16 (htons sum) ys in net_checksum filled (length filled) ≡ 0
net_checksum_filled xs ys even hx hy lt =
    let sum = net_checksum (xs ++ (0 ∷ 0 ∷ ys)) (length (xs ++ (0 ∷ 0 ∷ ys))) in
    rw (put16-htons sum ys) (filled_lem xs ys sum even hx hy lt (zeroed_lem xs ys even hx hy lt))
