-- ===== src/Strtol/Print.antt =====
-- `stringToLong` reads back what `snprintf("%ld")` writes.
use yedis.Prelude.{
  ℕ, zero, suc, ◌+◌, ◌-◌, ◌*◌, ◌≤◌, ◌<◌, ◌≡◌, refl, ◌∙◌, ap, Bool, true, false, some, [], ◌∷◌,
  Bytes, arith, All, length, ltb,
}
use yedis.Prelude.Int.{ℤ, pos, negsuc, neg}
use yedis.Decimal.{print_nat, print_int, value}
use yedis.Decimal.Value.{
  IsDigit, Head, print_nat-All, value-print_nat, print_nat-Head, length-print_nat,
  length-print_nat_pos,
}
use yedis.Strtol.{
  skip_spaces, span_digits, detect_base, convert, signed, strtol, has_digit, string_to_long,
  long_max, Converted,
}

pub span_digits-All :
    (acc : ℕ) (s : Bytes) → All IsDigit s → span_digits 10 acc s ≡ (value acc s, [])
unfolding span_digits
span_digits-All acc [] h = refl
span_digits-All acc (c ∷ s) (p, h) = ground (arith, span_digits-All (acc * 10 + (c - b'0')) s)

detect_base-Head : (s : Bytes) → Head (λ c. b'0' < c) s → detect_base s ≡ (10, s)
unfolding detect_base
detect_base-Head [] h = absurd h
detect_base-Head (c ∷ []) h = ground arith
detect_base-Head (c ∷ x ∷ s) h = ground arith

has_digit-Head : (s : Bytes) → All IsDigit s → Head (λ c. b'0' < c) s → has_digit 10 s ≡ true
has_digit-Head [] h p = absurd p
has_digit-Head (c ∷ s) h p = ground arith

abbrev converted : Bool → ℕ → Converted
converted true n = record { rest = []; erange = ltb (long_max + 1) n; val = neg n }
converted false n = record { rest = []; erange = ltb long_max n; val = pos n }

-- A run of digits that does not begin with a zero is read in decimal, whole.
convert-digits :
    (negative : Bool) (start s : Bytes)
    → All IsDigit s
    → Head (λ c. b'0' < c) s
    → convert negative start s ≡ converted negative (value 0 s)
unfolding convert
convert-digits true start s h p =
    rw (detect_base-Head s p, span_digits-All 0 s h, has_digit-Head s h p)
convert-digits false start s h p =
    rw (detect_base-Head s p, span_digits-All 0 s h, has_digit-Head s h p)

skip_spaces-Head : (s : Bytes) → All IsDigit s → skip_spaces s ≡ s
unfolding skip_spaces
skip_spaces-Head [] h = refl
skip_spaces-Head (c ∷ s) h = ground arith

signed-Head : (start s : Bytes) → All IsDigit s → signed start s ≡ convert false start s
unfolding signed
signed-Head start [] h = refl
signed-Head start (c ∷ s) h = ground arith

strtol-digits :
    (s : Bytes) → All IsDigit s → Head (λ c. b'0' < c) s → strtol s ≡ converted false (value 0 s)
unfolding strtol
strtol-digits s h p = rw (skip_spaces-Head s h, signed-Head s s h) (convert-digits false s s h p)

strtol-minus :
    (s : Bytes)
    → All IsDigit s
    → Head (λ c. b'0' < c) s
    → strtol (b'-' ∷ s) ≡ converted true (value 0 s)
unfolding strtol signed skip_spaces
strtol-minus s h p = convert-digits true (b'-' ∷ s) s h p

strtol-print_nat : (n : ℕ) → strtol (print_nat (suc n)) ≡ converted false (suc n)
strtol-print_nat n =
    strtol-digits (print_nat (suc n)) (print_nat-All (suc n)) (print_nat-Head (suc n) (omega arith))
    ∙ ap (converted false) (value-print_nat (suc n))

strtol-minus-print_nat : (n : ℕ) → strtol (b'-' ∷ print_nat (suc n)) ≡ converted true (suc n)
strtol-minus-print_nat n =
    strtol-minus (print_nat (suc n)) (print_nat-All (suc n)) (print_nat-Head (suc n) (omega arith))
    ∙ ap (converted true) (value-print_nat (suc n))

-- The range of a 64-bit `long`.
abbrev pub IsLong : ℤ → Type 0
IsLong (pos n) = n ≤ long_max
IsLong (negsuc n) = n ≤ long_max

-- Within its 20 bytes the text is what `strtol` makes of it.
string_to_long-strtol :
    (s : Bytes) {r : Converted}
    → 0 < length s
    → length s ≤ 20
    → strtol s ≡ r
    → r.erange ≡ false
    → r.rest ≡ []
    → string_to_long s ≡ some r.val
unfolding string_to_long
string_to_long-strtol s p q e h t = ground arith

length-print_nat-suc :
    (n : ℕ) → n ≤ long_max → (0 < length (print_nat (suc n))) × (length (print_nat (suc n)) ≤ 19)
length-print_nat-suc n h =
    (length-print_nat_pos (suc n), length-print_nat 19 (suc n) (omega arith) (omega arith))

zero_reads : string_to_long (print_int (pos 0)) ≡ some (pos 0)
unfolding string_to_long strtol skip_spaces span_digits detect_base convert signed print_int
zero_reads = refl

-- Every `long` is read back from its decimal print.
pub string_to_long-print_int : (z : ℤ) → IsLong z → string_to_long (print_int z) ≡ some z
unfolding print_int
string_to_long-print_int (pos zero) h = zero_reads
string_to_long-print_int (pos (suc n)) h =
    let (p, q) = length-print_nat-suc n (omega arith) in
    string_to_long-strtol (print_nat (suc n)) p (omega arith) (strtol-print_nat n) (ground arith)
      refl
string_to_long-print_int (negsuc n) h =
    let (p, q) = length-print_nat-suc n h in
    string_to_long-strtol (b'-' ∷ print_nat (suc n)) (omega arith) (omega arith)
      (strtol-minus-print_nat n) (ground arith) refl
