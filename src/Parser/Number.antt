-- ===== src/Parser/Number.antt =====
-- `getIntUntilCRLF` reads what `snprintf("%lu\r\n")` writes.
use yedis.Prelude.{
  ℕ, ◌+◌, ◌-◌, ◌*◌, ◌^◌, ◌≤◌, ◌<◌, ◌≡◌, refl, ap, ◌∙◌, [], ◌∷◌, ◌++◌, arith, Bytes, crlf, length,
  length-append, drop, All,
}
use yedis.Prelude.Int.{ℤ, pos}
use yedis.Decimal.{print_nat, value}
use yedis.Decimal.Value.{IsDigit, print_nat-All, value-print_nat, length-print_nat_pos}
use yedis.Parser.{ok, start, advance, stop, scan_int, get_int_until_crlf}

le-value : (acc : ℕ) (s : Bytes) → acc ≤ value acc s
le-value acc [] = omega arith
le-value acc (c ∷ s) = omega (arith, le-value (acc * 10 + (c - b'0')) s)

scan_int-digits :
    (s more : Bytes) (acc i : ℕ)
    → All IsDigit s
    → value acc s < 2 ^ 32
    → scan_int (s ++ (crlf ++ more)) acc i ≡ stop (value acc s) (i + length s)
unfolding scan_int
scan_int-digits [] more acc i h fits = ground arith
scan_int-digits (c ∷ s) more acc i (p, h) fits =
    let m = acc * 10 + (c - b'0') in
    ground (arith, le-value m s, scan_int-digits s more m (i + 1) h fits)

drop-line : (s more : Bytes) → drop (length s + 2) (s ++ (crlf ++ more)) ≡ more
drop-line [] more = refl
drop-line (c ∷ s) more = ground (arith, drop-line s more)

pub advance-line :
    (s more : Bytes) (i : ℕ)
    → i ≡ length s + 2
    → advance i (start (s ++ (crlf ++ more))) ≡ start more
advance-line s more i e = ground (arith, drop-line s more, length-append s (crlf ++ more))

-- A line of digits is read as the number that they spell.
pub get_int-digits :
    (s more : Bytes) (val : ℤ)
    → All IsDigit s
    → 0 < length s
    → value 0 s < 2 ^ 31
    → get_int_until_crlf (start (s ++ (crlf ++ more))) val ≡ (ok, start more, pos (value 0 s))
unfolding get_int_until_crlf
get_int-digits [] more val h p fits = absurd (omega arith)
get_int-digits (c ∷ s) more val h p fits = ground (
  arith,
  length-append s (crlf ++ more),
  scan_int-digits (c ∷ s) more 0 0 h (omega arith),
  advance-line (c ∷ s) more (length s + 3) (omega arith),
)

-- A number is read back from the line that prints it.
pub get_int-print_nat :
    (n : ℕ) (more : Bytes) (val : ℤ)
    → n < 2 ^ 31
    → get_int_until_crlf (start (print_nat n ++ (crlf ++ more))) val ≡ (ok, start more, pos n)
get_int-print_nat n more val fits =
    get_int-digits (print_nat n) more val (print_nat-All n) (length-print_nat_pos n)
      (rw value-print_nat fits)
    ∙ ap (λ k. (ok, start more, pos k)) (value-print_nat n)
