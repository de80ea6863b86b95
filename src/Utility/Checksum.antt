-- ===== src/Utility/Checksum.antt =====
-- components/net_stack/utility/checksum.c. The buffer is at least `header_len_bytes` long: the
-- callers check it.
pub mod Fold
pub mod Sum
pub mod Verify
use ip.Base.{
  ℕ, zero, suc, ◌+◌, ◌*◌, ◌-◌, ◌/◌, ◌%◌, bit_and, ◌>>>◌, u16, u32, Bool, ◌==◌, if◌then◌else◌, List,
  get_or,
}
use ip.Utility.Endian.{ntohs, load16}

-- The `for` loop over the whole words, with `left` rounds to go at index `i`.
pub sum_words : List ℕ → ℕ → ℕ → ℕ → ℕ
sum_words header zero i sum = sum
sum_words header (suc left) i sum =
    sum_words header left (i + 1) (u32 (sum + ntohs (load16 header (i * 2))))

-- An odd last byte goes into the low byte of a zeroed word.
pub sum_odd : List ℕ → ℕ → ℕ → ℕ → ℕ
sum_odd header header_len_bytes word_count sum =
    if bit_and header_len_bytes 1 == 0
    then sum
    else u32 (sum + ntohs (get_or header (word_count * 2) 0))

-- The `while` loop that folds the carries. It returns `sum` and `upper`; the fuel is the number of
-- tests of the condition, and three are enough (Checksum/Fold).
pub fold : ℕ → ℕ → ℕ → ℕ × ℕ
fold zero sum upper = (sum, upper)
fold (suc fuel) sum upper =
    let next = u32 (bit_and sum 0xffff + upper) in
    let rest = fold fuel next (u16 (next >>> 16)) in if upper == 0 then (sum, upper) else rest

-- `return ~sum`, cut to 16 bits.
pub complement : ℕ → ℕ
complement sum = u16 (4294967295 - sum)

unfoldable pub net_checksum : List ℕ → ℕ → ℕ
unfolding sum_words sum_odd fold complement
net_checksum header header_len_bytes =
    let word_count = header_len_bytes / 2 in
    let sum = sum_odd header header_len_bytes word_count (sum_words header word_count 0 0) in
    complement (fold 3 sum (u16 (sum >>> 16))).0
