-- ===== src/Utility/Print/Fields.antt =====
-- Reading numbers back from a text in which a character separates them.
use ip.Base.{
  ℕ, zero, suc, ◌+◌, ◌*◌, ◌/◌, ◌%◌, ◌<◌, ◌≡◌, refl, arith, false, ltb, ◌==◌, ==_iff, if◌then◌else◌,
  List, [], ◌∷◌, ◌++◌, Bool-cases, inl, inr,
}
use ip.Utility.Print.{
  digit, digit_value, value_from, dec, hex, print_dec, print_hex, print_dec-value, print_hex-value,
}

-- A character that is not in a text.
abbrev Free : ℕ → List ℕ → Type 0
Free sep [] = Unit
Free sep (c ∷ s) = ((c == sep) ≡ false) × Free sep s

Free-append : (sep c : ℕ) (s : List ℕ) → Free sep s → (c == sep) ≡ false → Free sep (s ++ (c ∷ []))
Free-append sep c [] free other = (other, tt)
Free-append sep c (d ∷ s) free other = (free.0, Free-append sep c s free.1 other)

-- No digit is `.` or `:`.
digit-not_dot : (d : ℕ) → (digit d == 46) ≡ false
unfolding digit
digit-not_dot d = ground arith

digit-not_colon : (d : ℕ) → (digit d == 58) ≡ false
unfolding digit
digit-not_colon d = ground arith

print_dec-Free : (fuel n : ℕ) → Free 46 (print_dec fuel n)
unfolding print_dec
print_dec-Free zero n = tt
print_dec-Free (suc fuel) n = elim (Bool-cases (ltb n 10)) [
  | inl one ↦ rw one (digit-not_dot n, tt)
  | inr more ↦ rw more (
      Free-append 46 (digit (n % 10)) (print_dec fuel (n / 10)) (print_dec-Free fuel (n / 10))
        (digit-not_dot (n % 10)))
]

print_hex-Free : (fuel n : ℕ) → Free 58 (print_hex fuel n)
unfolding print_hex
print_hex-Free zero n = tt
print_hex-Free (suc fuel) n = elim (Bool-cases (ltb n 16)) [
  | inl one ↦ rw one (digit-not_colon n, tt)
  | inr more ↦ rw more (
      Free-append 58 (digit (n % 16)) (print_hex fuel (n / 16)) (print_hex-Free fuel (n / 16))
        (digit-not_colon (n % 16)))
]

-- The numbers in a text, which a character separates.
pub read_fields : ℕ → ℕ → ℕ → List ℕ → List ℕ
read_fields base sep acc [] = acc ∷ []
read_fields base sep acc (c ∷ s) =
    let rest = read_fields base sep 0 s in
    let more = read_fields base sep (acc * base + digit_value c) s in
    if c == sep then acc ∷ rest else more

read_fields-append :
    (base sep acc : ℕ) (s t : List ℕ)
    → Free sep s
    → read_fields base sep acc (s ++ (sep ∷ t)) ≡ value_from base acc s ∷ read_fields base sep 0 t
unfolding read_fields
read_fields-append base sep acc [] t free = rw ((==_iff sep sep).1 refl)
read_fields-append base sep acc (c ∷ s) t free =
    rw free.0 (read_fields-append base sep (acc * base + digit_value c) s t free.1)

read_fields-last :
    (base sep acc : ℕ) (s : List ℕ)
    → Free sep s
    → read_fields base sep acc s ≡ value_from base acc s ∷ []
unfolding read_fields
read_fields-last base sep acc [] free = refl
read_fields-last base sep acc (c ∷ s) free =
    rw free.0 (read_fields-last base sep (acc * base + digit_value c) s free.1)

-- A byte in decimal, then a full stop or the end; a byte in hexadecimal, then a colon or the end.
pub read_fields-dec :
    (n : ℕ) (t : List ℕ)
    → n < 256
    → read_fields 10 46 0 (dec n ++ (46 ∷ t)) ≡ n ∷ read_fields 10 46 0 t
unfolding dec
read_fields-dec n t h = rw (
  read_fields-append 10 46 0 (print_dec 10 n) t (print_dec-Free 10 n),
  print_dec-value 10 n (omega arith),
)

pub read_fields-dec_last : (n : ℕ) → n < 256 → read_fields 10 46 0 (dec n) ≡ n ∷ []
unfolding dec
read_fields-dec_last n h = rw (
  read_fields-last 10 46 0 (print_dec 10 n) (print_dec-Free 10 n),
  print_dec-value 10 n (omega arith),
)

pub read_fields-hex :
    (n : ℕ) (t : List ℕ)
    → n < 256
    → read_fields 16 58 0 (hex n ++ (58 ∷ t)) ≡ n ∷ read_fields 16 58 0 t
unfolding hex
read_fields-hex n t h = rw (
  read_fields-append 16 58 0 (print_hex 8 n) t (print_hex-Free 8 n),
  print_hex-value 8 n (omega arith),
)

pub read_fields-hex_last : (n : ℕ) → n < 256 → read_fields 16 58 0 (hex n) ≡ n ∷ []
unfolding hex
read_fields-hex_last n h = rw (
  read_fields-last 16 58 0 (print_hex 8 n) (print_hex-Free 8 n),
  print_hex-value 8 n (omega arith),
)
