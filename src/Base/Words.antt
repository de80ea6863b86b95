-- ===== src/Base/Words.antt =====
-- Casts to the fixed widths of C, shifts, and masks as arithmetic at every width.
use Prim.Native.Nat.{
  ℕ, zero, suc, ◌+◌, ◌*◌, ◌/◌, ◌%◌, ◌^◌, ◌<◌, ◌≤◌, min, max, bit_and, bit_or, digits,
  bit_and-bitwise, bit_or-bitwise,
}
use mathlib.Core.Path.{◌≡◌, refl, ap}
use native.Mathlib.Nat.{pow-suc}
use native.Mathlib.Omega.{arith}

abbrev pub u8 : ℕ → ℕ
u8 n = n % 256

abbrev pub u16 : ℕ → ℕ
u16 n = n % 65536

abbrev pub u32 : ℕ → ℕ
u32 n = n % 4294967296

infixl 75 ◌<<<◌ ◌>>>◌
abbrev pub ◌<<<◌ : ℕ → ℕ → ℕ
x <<< k = x * 2 ^ k

abbrev pub ◌>>>◌ : ℕ → ℕ → ℕ
x >>> k = x / 2 ^ k

-- The digit recursion behind a bit operation, with its fuel bounded from below only.
module _ (z : ℕ → ℕ) (op : ℕ → ℕ → ℕ) where
  enough : (f g x y : ℕ) → x ≤ f → x ≤ g → digits z op f x y ≡ digits z op g x y
  enough zero zero x y p q = refl
  enough zero (suc g) zero y p q = refl
  enough zero (suc g) (suc x) y p q = absurd (omega arith)
  enough (suc f) zero zero y p q = refl
  enough (suc f) zero (suc x) y p q = absurd (omega arith)
  enough (suc f) (suc g) zero y p q = refl
  enough (suc f) (suc g) (suc x) y p q =
      omega (arith, enough f g (suc x / 2) (y / 2) (omega arith) (omega arith))

or_low : (x y : ℕ) → bit_or x y ≡ bit_or (x / 2) (y / 2) * 2 + max (x % 2) (y % 2)
or_low zero y = omega (arith, bit_or-bitwise 0 y, bit_or-bitwise 0 (y / 2))
or_low (suc x) y = omega (
  arith,
  bit_or-bitwise (suc x) y,
  bit_or-bitwise (suc x / 2) (y / 2),
  enough (λ b. b) max x (suc x / 2) (suc x / 2) (y / 2) (omega arith) (omega arith),
)

and_low : (x y : ℕ) → bit_and x y ≡ bit_and (x / 2) (y / 2) * 2 + min (x % 2) (y % 2)
and_low zero y = omega (arith, bit_and-bitwise 0 y, bit_and-bitwise 0 (y / 2))
and_low (suc x) y = omega (
  arith,
  bit_and-bitwise (suc x) y,
  bit_and-bitwise (suc x / 2) (y / 2),
  enough (λ b. 0) min x (suc x / 2) (suc x / 2) (y / 2) (omega arith) (omega arith),
)

or_zero_below : (f x : ℕ) → x ≤ f → bit_or x 0 ≡ x
or_zero_below f zero h = refl
or_zero_below zero (suc x) h = absurd (omega arith)
or_zero_below (suc f) (suc x) h =
    omega (arith, or_low (suc x) 0, or_zero_below f (suc x / 2) (omega arith))

and_zero_below : (f x : ℕ) → x ≤ f → bit_and x 0 ≡ 0
and_zero_below f zero h = refl
and_zero_below zero (suc x) h = absurd (omega arith)
and_zero_below (suc f) (suc x) h =
    omega (arith, and_low (suc x) 0, and_zero_below f (suc x / 2) (omega arith))

-- `(hi << k) | lo` is a sum when `lo` has at most `k` bits.
pub bit_or-shift : (k hi lo : ℕ) → lo < 2 ^ k → bit_or (hi <<< k) lo ≡ hi * 2 ^ k + lo
bit_or-shift zero hi lo h = ground (arith, or_zero_below hi hi)
bit_or-shift (suc k) hi lo h = ground (
  arith,
  or_low (hi * 2 ^ suc k) lo,
  ap (λ (t : ℕ). hi * t) (pow-suc 2 k),
  pow-suc 2 k,
  bit_or-shift k hi (lo / 2) (omega (arith, pow-suc 2 k)),
)

-- The masks of the program, each from the one below it.
mask_one : (x : ℕ) → bit_and x 1 ≡ x % 2
mask_one x = omega (arith, and_low x 1, and_zero_below (x / 2) (x / 2))

mask_four : (x : ℕ) → bit_and x 15 ≡ x % 16
mask_four x =
    omega (arith, and_low x 15, and_low (x / 2) 7, and_low (x / 2 / 2) 3, mask_one (x / 2 / 2 / 2))

mask_byte : (x : ℕ) → bit_and x 255 ≡ x % 256
mask_byte x = omega (
  arith,
  and_low x 255,
  and_low (x / 2) 127,
  and_low (x / 2 / 2) 63,
  and_low (x / 2 / 2 / 2) 31,
  mask_four (x / 2 / 2 / 2 / 2),
)

nibble_off : (x m : ℕ) → bit_and x (16 * m + 15) ≡ bit_and (x / 16) m * 16 + x % 16
nibble_off x m = omega (
  arith,
  and_low x (16 * m + 15),
  and_low (x / 2) (8 * m + 7),
  and_low (x / 2 / 2) (4 * m + 3),
  and_low (x / 2 / 2 / 2) (2 * m + 1),
  cut,
  cut1,
  cut2,
  cut3,
  ap (λ (t : ℕ). bit_and t m) halves,
)
  where
    halves : x / 2 / 2 / 2 / 2 ≡ x / 16
    halves = omega arith

    cut : bit_and (x / 2) ((16 * m + 15) / 2) ≡ bit_and (x / 2) (8 * m + 7)
    cut = ap (λ t. bit_and (x / 2) t) (omega arith)

    cut1 : bit_and (x / 2 / 2) ((8 * m + 7) / 2) ≡ bit_and (x / 2 / 2) (4 * m + 3)
    cut1 = ap (λ t. bit_and (x / 2 / 2) t) (omega arith)

    cut2 : bit_and (x / 2 / 2 / 2) ((4 * m + 3) / 2) ≡ bit_and (x / 2 / 2 / 2) (2 * m + 1)
    cut2 = ap (λ t. bit_and (x / 2 / 2 / 2) t) (omega arith)

    cut3 : bit_and (x / 2 / 2 / 2 / 2) ((2 * m + 1) / 2) ≡ bit_and (x / 2 / 2 / 2 / 2) m
    cut3 = ap (λ t. bit_and (x / 2 / 2 / 2 / 2) t) (omega arith)

pub bit_and_one : (x : ℕ) → bit_and x 1 ≡ x % 2
bit_and_one x = mask_one x

pub bit_and_nibble : (x : ℕ) → bit_and x 0x0f ≡ x % 16
bit_and_nibble x = mask_four x

pub bit_and_byte : (x : ℕ) → bit_and x 0xff ≡ x % 256
bit_and_byte x = mask_byte x

pub bit_and_half : (x : ℕ) → bit_and x 0xffff ≡ x % 65536
bit_and_half x = omega (arith, nibble_off x 4095, nibble_off (x / 16) 255, mask_byte (x / 16 / 16))
