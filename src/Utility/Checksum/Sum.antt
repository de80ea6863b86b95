-- ===== src/Utility/Checksum/Sum.antt =====
-- The word loop of net_checksum against the sum of a byte string read as big-endian words.
use ip.Base.{
  ℕ, zero, suc, ◌+◌, ◌*◌, ◌-◌, ◌/◌, ◌<◌, ◌≤◌, ◌≡◌, refl, arith, List, [], ◌∷◌, length, bit_and_one,
  u32, bit_and,
}
use ip.Utility.Endian.{ntohs, ntohs_as_sum, load16}
use ip.Utility.Checksum.{sum_words, sum_odd, net_checksum}
use ip.Utility.Checksum.Fold.{folded, fold_lem, folded-lt}

-- Every element is a byte.
abbrev pub IsBytes : List ℕ → Type 0
IsBytes [] = Unit
IsBytes (b ∷ bs) = (b < 256) × IsBytes bs

-- The sum of the 16-bit words of a byte string, an odd last byte filled up with a zero.
abbrev pub be_sum : List ℕ → ℕ
be_sum [] = 0
be_sum (a ∷ []) = a * 256
be_sum (a ∷ b ∷ rest) = a * 256 + b + be_sum rest

sum_words_shift :
    (a b : ℕ) (xs : List ℕ) (left i sum : ℕ)
    → sum_words (a ∷ b ∷ xs) left (suc i) sum ≡ sum_words xs left i sum
unfolding sum_words
sum_words_shift a b xs zero i sum = refl
sum_words_shift a b xs (suc left) i sum =
    rw (word, shifted) (sum_words_shift a b xs left (i + 1) (u32 (sum + ntohs (load16 xs (i * 2)))))
  where
    double : suc i * 2 ≡ suc (suc (i * 2))
    double = omega arith

    next_word : suc i * 2 + 1 ≡ suc (suc (i * 2 + 1))
    next_word = omega arith

    word : load16 (a ∷ b ∷ xs) (suc i * 2) ≡ load16 xs (i * 2)
    word = rw (next_word, double)

    shifted : suc i + 1 ≡ suc (i + 1)
    shifted = omega arith

sum_odd_shift :
    (a b : ℕ) (xs : List ℕ) (n k sum : ℕ)
    → sum_odd (a ∷ b ∷ xs) (suc (suc n)) (suc k) sum ≡ sum_odd xs n k sum
unfolding sum_odd
sum_odd_shift a b xs n k sum = rw (parity, double)
  where
    parity : bit_and (suc (suc n)) 1 ≡ bit_and n 1
    parity = omega (arith, bit_and_one (suc (suc n)), bit_and_one n)

    double : suc k * 2 ≡ suc (suc (k * 2))
    double = omega arith

-- One round on a buffer of at least two bytes.
sum_words_round :
    (a b : ℕ) (xs : List ℕ) (left sum : ℕ)
    → a < 256
    → b < 256
    → sum + (a * 256 + b) < 4294967296
    → sum_words (a ∷ b ∷ xs) (suc left) 0 sum ≡ sum_words xs left 0 (sum + (a * 256 + b))
unfolding sum_words
sum_words_round a b xs left sum ha hb lt =
    rw (added, first) (sum_words_shift a b xs left 0 (sum + (a * 256 + b)))
  where
    added : u32 (sum + ntohs (a + b * 256)) ≡ sum + (a * 256 + b)
    added = omega (arith, ntohs_as_sum (a + b * 256))

    first : 0 + 1 ≡ suc 0
    first = omega arith

pub be_sum-le : (xs : List ℕ) → IsBytes xs → be_sum xs * 2 ≤ (length xs + 1) * 65535
be_sum-le [] h = omega arith
be_sum-le (a ∷ []) h = omega arith
be_sum-le (a ∷ b ∷ rest) h = omega (arith, be_sum-le rest h.1.1)

-- The whole loop, on a buffer of just the length that it is told.
sum_all :
    (xs : List ℕ) (sum : ℕ)
    → IsBytes xs
    → sum + be_sum xs < 4294967296
    → sum_odd xs (length xs) (length xs / 2) (sum_words xs (length xs / 2) 0 sum) ≡ sum + be_sum xs
unfolding sum_words sum_odd
sum_all [] sum h lt = omega arith
sum_all (a ∷ []) sum h lt = omega (arith, ntohs_as_sum a)
sum_all (a ∷ b ∷ rest) sum h lt =
    rw
      (
        halves,
        sum_odd_shift a b rest (length rest) (length rest / 2),
        sum_words_round a b rest (length rest / 2) sum h.0 h.1.0 (omega arith),
        sum_all rest (sum + (a * 256 + b)) h.1.1 (omega arith),
      )
      (omega arith)
  where
    halves : suc (suc (length rest)) / 2 ≡ suc (length rest / 2)
    halves = omega arith

-- The checksum of a buffer of less than 65536 bytes is the complement of the 16-bit number that
-- the sum of its words stands for.
pub net_checksum-eq-folded :
    (xs : List ℕ)
    → IsBytes xs
    → length xs < 65536
    → net_checksum xs (length xs) ≡ 65535 - folded (be_sum xs)
unfolding net_checksum
net_checksum-eq-folded xs h lt =
    rw
      (
        sum_all xs 0 h (omega (arith, be_sum-le xs h)),
        fold_lem 0 (0 + be_sum xs) (omega (arith, be_sum-le xs h)),
      )
      (ground (arith, folded-lt (be_sum xs)))
