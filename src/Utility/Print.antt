-- ===== src/Utility/Print.antt =====
-- The conversions of `printf` that the program uses: `%u`, `%x`, a field width, and text. A
-- character is its ASCII code.
pub mod Fields
use Prim.Native.Char.{code}
use Prim.Native.String.{String}
use ip.Base.{
  ℕ, zero, suc, ◌+◌, ◌-◌, ◌*◌, ◌/◌, ◌%◌, ◌≤◌, ◌<◌, ◌≡◌, refl, arith, Bool, false, ltb, ◌==◌,
  if◌then◌else◌, List, [], ◌∷◌, ◌++◌, length, length-append, replicate, lt→ltb, ==_iff, Bool-cases,
  inl, inr,
}

abbrev pub codes : String → List ℕ
codes String.[] = []
codes (String.◌∷◌ c s) = code c ∷ codes s

-- `0` to `9`, then `a` to `f`.
unfoldable pub digit : ℕ → ℕ
digit d = if ltb d 10 then d + 48 else d + 87

unfoldable pub digit_value : ℕ → ℕ
digit_value c = if ltb c 58 then c - 48 else c - 87

-- A number by its digits, at most as many as `fuel`.
pub print_dec : ℕ → ℕ → List ℕ
print_dec zero n = []
print_dec (suc fuel) n =
    let more = print_dec fuel (n / 10) ++ (digit (n % 10) ∷ []) in
    if ltb n 10 then digit n ∷ [] else more

pub print_hex : ℕ → ℕ → List ℕ
print_hex zero n = []
print_hex (suc fuel) n =
    let more = print_hex fuel (n / 16) ++ (digit (n % 16) ∷ []) in
    if ltb n 16 then digit n ∷ [] else more

-- `%u` and `%x` of a 32-bit number, which has at most 10 decimal and 8 hexadecimal digits.
unfoldable pub dec : ℕ → List ℕ
dec n = print_dec 10 n

unfoldable pub hex : ℕ → List ℕ
hex n = print_hex 8 n

-- `%5u` and `%-16s`: blanks up to a width, before or behind.
abbrev pub pad_left : ℕ → List ℕ → List ℕ
pad_left width s = replicate (width - length s) 32 ++ s

abbrev pub pad_right : ℕ → List ℕ → List ℕ
pad_right width s = s ++ replicate (width - length s) 32

-- What a row of digits stands for.
abbrev pub value_from : ℕ → ℕ → List ℕ → ℕ
value_from base acc [] = acc
value_from base acc (c ∷ s) = value_from base (acc * base + digit_value c) s

pub value_from-append :
    (base acc c : ℕ) (s : List ℕ)
    → value_from base acc (s ++ (c ∷ [])) ≡ value_from base acc s * base + digit_value c
value_from-append base acc c [] = refl
value_from-append base acc c (d ∷ s) = value_from-append base (acc * base + digit_value d) c s

-- The numbers that have at most so many digits.
abbrev pub limit : ℕ → ℕ → ℕ
limit base zero = 1
limit base (suc k) = base * limit base k

digit_value-digit : (d : ℕ) → d < 16 → digit_value (digit d) ≡ d
unfolding digit digit_value
digit_value-digit d h = ground arith

-- Printed and read again, a number is itself.
pub print_dec-value : (fuel n : ℕ) → n < limit 10 fuel → value_from 10 0 (print_dec fuel n) ≡ n
unfolding print_dec
print_dec-value zero n h = omega arith
print_dec-value (suc fuel) n h = elim (Bool-cases (ltb n 10)) [
  | inl one ↦ rw (one, digit_value-digit n (ground arith)) (omega arith)
  | inr more ↦
      rw
        (
          more,
          value_from-append 10 0 (digit (n % 10)) (print_dec fuel (n / 10)),
          print_dec-value fuel (n / 10) (omega arith),
          digit_value-digit (n % 10) (omega arith),
        )
        (omega arith)
]

pub print_hex-value : (fuel n : ℕ) → n < limit 16 fuel → value_from 16 0 (print_hex fuel n) ≡ n
unfolding print_hex
print_hex-value zero n h = omega arith
print_hex-value (suc fuel) n h = elim (Bool-cases (ltb n 16)) [
  | inl one ↦ rw (one, digit_value-digit n (ground arith)) (omega arith)
  | inr more ↦
      rw
        (
          more,
          value_from-append 16 0 (digit (n % 16)) (print_hex fuel (n / 16)),
          print_hex-value fuel (n / 16) (omega arith),
          digit_value-digit (n % 16) (omega arith),
        )
        (omega arith)
]

-- How many digits a number below a limit has.
pub print_dec-length : (fuel k n : ℕ) → n < limit 10 (suc k) → length (print_dec fuel n) ≤ suc k
unfolding print_dec
print_dec-length zero k n h = omega arith
print_dec-length (suc fuel) zero n h = rw (lt→ltb n 10 h) (omega arith)
print_dec-length (suc fuel) (suc k) n h = elim (Bool-cases (ltb n 10)) [
  | inl one ↦ rw one (omega arith)
  | inr more ↦
      rw (more, length-append (print_dec fuel (n / 10)) (digit (n % 10) ∷ []))
        (omega (arith, print_dec-length fuel k (n / 10) (omega arith)))
]

pub print_hex-length : (fuel k n : ℕ) → n < limit 16 (suc k) → length (print_hex fuel n) ≤ suc k
unfolding print_hex
print_hex-length zero k n h = omega arith
print_hex-length (suc fuel) zero n h = rw (lt→ltb n 16 h) (omega arith)
print_hex-length (suc fuel) (suc k) n h = elim (Bool-cases (ltb n 16)) [
  | inl one ↦ rw one (omega arith)
  | inr more ↦
      rw (more, length-append (print_hex fuel (n / 16)) (digit (n % 16) ∷ []))
        (omega (arith, print_hex-length fuel k (n / 16) (omega arith)))
]

pub dec-length : (k n : ℕ) → n < limit 10 (suc k) → length (dec n) ≤ suc k
unfolding dec
dec-length k n h = print_dec-length 10 k n h

pub hex-length : (k n : ℕ) → n < limit 16 (suc k) → length (hex n) ≤ suc k
unfolding hex
hex-length k n h = print_hex-length 8 k n h
