-- ===== src/Utility/Endian.antt =====
-- components/net_stack/utility/endian.h, on a little-endian machine: how a word lies in memory, and
-- the swaps of its bytes.
use ip.Base.{
  ℕ, ◌+◌, ◌*◌, ◌/◌, ◌%◌, ◌<◌, ◌≡◌, arith, bit_and, bit_or, ◌<<<◌, ◌>>>◌, List, ◌∷◌, get_or,
  bit_and_byte, bit_or-shift, ◌^◌,
}
use mathlib.Core.Path.{ap₂}

unfoldable pub ntohs : ℕ → ℕ
ntohs net_value = bit_or (bit_and net_value 0xff <<< 8) (bit_and (net_value >>> 8) 0xff)

unfoldable pub ntohl : ℕ → ℕ
ntohl net_value =
    bit_or
      (bit_or (bit_or (bit_and net_value 0xff <<< 24) (bit_and (net_value >>> 8) 0xff <<< 16))
        (bit_and (net_value >>> 16) 0xff <<< 8))
      (bit_and (net_value >>> 24) 0xff)

unfoldable pub htons : ℕ → ℕ
htons host_value = ntohs host_value

unfoldable pub htonl : ℕ → ℕ
htonl host_value = ntohl host_value

-- A `uint16_t` at an offset of a buffer, as the machine loads it.
abbrev pub load16 : List ℕ → ℕ → ℕ
load16 buf o = get_or buf o 0 + get_or buf (o + 1) 0 * 256

abbrev pub load32 : List ℕ → ℕ → ℕ
load32 buf o =
    get_or buf o 0
    + get_or buf (o + 1) 0 * 256
    + get_or buf (o + 2) 0 * 65536
    + get_or buf (o + 3) 0 * 16777216

-- The bytes of a stored `uint16_t` or `uint32_t`, in front of those that follow.
abbrev pub put16 : ℕ → List ℕ → List ℕ
put16 v rest = v % 256 ∷ v / 256 % 256 ∷ rest

abbrev pub put32 : ℕ → List ℕ → List ℕ
put32 v rest = v % 256 ∷ v / 256 % 256 ∷ v / 65536 % 256 ∷ v / 16777216 % 256 ∷ rest

pub ntohs_as_sum : (v : ℕ) → ntohs v ≡ v % 256 * 256 + v / 256 % 256
unfolding ntohs
ntohs_as_sum v =
    ground (arith, bit_and_byte v, bit_and_byte (v / 256), bit_or-shift 8 (v % 256) (v / 256 % 256))

-- Joining fields that do not overlap.
bit_or-fields : (k hi w lo : ℕ) → w ≡ hi * 2 ^ k → lo < 2 ^ k → bit_or w lo ≡ w + lo
bit_or-fields k hi w lo e h = rw e (bit_or-shift k hi lo h)

join_bytes :
    (a b c d : ℕ)
    → b < 256
    → c < 256
    → d < 256
    → bit_or (bit_or (bit_or (a * 16777216) (b * 65536)) (c * 256)) d
      ≡ a * 16777216 + b * 65536 + c * 256 + d
join_bytes a b c d hb hc hd = rw (
  bit_or-fields 24 a (a * 16777216) (b * 65536) (omega arith) (omega arith),
  bit_or-fields 16 (a * 256 + b) (a * 16777216 + b * 65536) (c * 256) (omega arith) (omega arith),
  bit_or-fields 8 (a * 65536 + b * 256 + c) (a * 16777216 + b * 65536 + c * 256) d (omega arith)
      (omega arith),
)

pub ntohl_as_sum :
    (v : ℕ)
    → ntohl v
      ≡ v % 256 * 16777216 + v / 256 % 256 * 65536 + v / 65536 % 256 * 256 + v / 16777216 % 256
unfolding ntohl
ntohl_as_sum v =
    rw (bit_and_byte, bit_and_byte, bit_and_byte, bit_and_byte)
      (join_bytes (v % 256) (v / 256 % 256) (v / 65536 % 256) (v / 16777216 % 256) (omega arith)
        (omega arith) (omega arith))

pub ntohs-lt : (v : ℕ) → ntohs v < 65536
ntohs-lt v = omega (arith, ntohs_as_sum v)

pub ntohl-lt : (v : ℕ) → ntohl v < 4294967296
ntohl-lt v = omega (arith, ntohl_as_sum v)

-- Swapping the bytes of a uint16_t to network order and back gives it again.
pub ntohs-htons : (v : ℕ) → v < 65536 → ntohs (htons v) ≡ v
unfolding htons
ntohs-htons v h = omega (arith, ntohs_as_sum v, ntohs_as_sum (ntohs v))

-- Swapping the bytes of a uint32_t to network order and back gives it again.
pub ntohl-htonl : (v : ℕ) → v < 4294967296 → ntohl (htonl v) ≡ v
unfolding htonl
ntohl-htonl v h = omega (arith, ntohl_as_sum v, ntohl_as_sum (ntohl v))

-- A word that is swapped and stored lies in memory with its most significant byte first.
pub put16-htons : (v : ℕ) (rest : List ℕ) → put16 (htons v) rest ≡ v / 256 % 256 ∷ v % 256 ∷ rest
unfolding htons
put16-htons v rest =
    ap₂ (λ a b. a ∷ b ∷ rest) (omega (arith, ntohs_as_sum v)) (omega (arith, ntohs_as_sum v))

pub load16_swapped :
    (a b : ℕ) (rest : List ℕ) → a < 256 → b < 256 → ntohs (load16 (a ∷ b ∷ rest) 0) ≡ a * 256 + b
load16_swapped a b rest ha hb = omega (arith, ntohs_as_sum (load16 (a ∷ b ∷ rest) 0))

-- A field written through `htons` and read through `ntohs` comes back.
pub load16-put16 : (v : ℕ) (rest : List ℕ) → v < 65536 → ntohs (load16 (put16 (htons v) rest) 0) ≡ v
unfolding htons
load16-put16 v rest h =
    omega (arith, ntohs_as_sum v, ntohs_as_sum (load16 (put16 (ntohs v) rest) 0))

pub load32-put32 :
    (v : ℕ) (rest : List ℕ) → v < 4294967296 → ntohl (load32 (put32 (htonl v) rest) 0) ≡ v
unfolding htonl
load32-put32 v rest h =
    omega (arith, ntohl_as_sum v, ntohl_as_sum (load32 (put32 (ntohl v) rest) 0))
