-- ===== src/Utility/Checksum/Fold.antt =====
-- The loop that folds the carries of net_checksum: its end, and its value.
use ip.Base.{ℕ, zero, suc, ◌+◌, ◌-◌, ◌/◌, ◌%◌, ◌<◌, ◌≤◌, ◌≡◌, arith, refl, u16, ◌>>>◌, bit_and_half}
use native.Mathlib.Decide.{dec_lt}
use ip.Utility.Checksum.{fold}

-- The number below 65536 that a one's complement sum stands for.
abbrev pub folded : ℕ → ℕ
folded zero = 0
folded (suc n) = n % 65535 + 1

upper : ℕ → ℕ
upper sum = u16 (sum >>> 16)

next : ℕ → ℕ
next sum = sum % 65536 + sum / 65536

fold_small : (fuel sum : ℕ) → sum < 65536 → fold (suc fuel) sum (upper sum) ≡ (sum, 0)
unfolding fold upper
fold_small fuel sum h = ground arith

fold_large :
    (fuel sum : ℕ)
    → 65536 ≤ sum
    → sum < 4294967296
    → fold (suc fuel) sum (upper sum) ≡ fold fuel (next sum) (upper (next sum))
unfolding fold upper next
fold_large fuel sum h lt = ground (arith, bit_and_half sum)

folded_of_ne_zero : (m : ℕ) → 0 < m → folded m ≡ (m - 1) % 65535 + 1
folded_of_ne_zero zero h = absurd (omega arith)
folded_of_ne_zero (suc n) h = omega arith

folded-next : (sum : ℕ) → folded (next sum) ≡ folded sum
unfolding next
folded-next zero = refl
folded-next (suc n) = omega (arith, folded_of_ne_zero (suc n % 65536 + suc n / 65536))

folded_small : (sum : ℕ) → sum < 65536 → folded sum ≡ sum
folded_small zero h = refl
folded_small (suc n) h = omega arith

fold_once : (fuel sum : ℕ) → sum < 131071 → fold (suc (suc fuel)) sum (upper sum) ≡ (folded sum, 0)
unfolding next
fold_once fuel sum h = elim (dec_lt sum 65536) [
  | yes p ↦ rw (fold_small (suc fuel) sum p, folded_small sum p)
  | no p ↦ rw (
    fold_large (suc fuel) sum (omega arith) (omega arith),
    fold_small fuel (next sum) (omega arith),
    ← folded-next sum,
    folded_small (next sum) (omega arith),
  )
]

-- From three tests of its condition on, the loop that folds a 32-bit sum ends by its condition,
-- and with the 16-bit number that the sum stands for.
pub fold_lem :
    (fuel sum : ℕ)
    → sum < 4294967296
    → fold (suc (suc (suc fuel))) sum (u16 (sum >>> 16)) ≡ (folded sum, 0)
unfolding upper next
fold_lem fuel sum h = elim (dec_lt sum 65536) [
  | yes p ↦ rw (fold_small (suc (suc fuel)) sum p, folded_small sum p)
  | no p ↦ rw (
    fold_large (suc (suc fuel)) sum (omega arith) h,
    fold_once fuel (next sum) (omega arith),
    folded-next sum,
  )
]

pub folded-lt : (sum : ℕ) → folded sum < 65536
folded-lt zero = omega arith
folded-lt (suc n) = omega arith

-- Adding the complement of what a sum stands for makes it stand for 65535.
pub folded-complement : (sum : ℕ) → folded (sum + (65535 - folded sum)) ≡ 65535
folded-complement zero = refl
folded-complement (suc n) = omega (arith, folded_of_ne_zero (suc n + (65535 - (n % 65535 + 1))))
