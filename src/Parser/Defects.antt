-- ===== src/Parser/Defects.antt =====
-- Two defects of the parser: a request whose count of parameters comes in two parts cannot be
-- resumed, and a length close to 2 ^ 31 is read past the end of the input.
use yedis.Prelude.{
  ℕ, zero, suc, ◌+◌, ◌-◌, ◌*◌, ◌%◌, ◌^◌, ◌≤◌, ◌<◌, ◌≡◌, refl, false, [], ◌∷◌, ◌++◌, arith, Bytes,
  cr, All, length, length-append, drop,
}
use yedis.Prelude.Int.{ℤ, pos}
use yedis.Decimal.Value.{IsDigit}
use yedis.Outcome.{done, fault}
use yedis.Parser.{
  ProtoParse, wait, error, start, fresh, minus_one, leave, scan_int, get_int_until_crlf,
  parse_multi, parse_request, parse_value, parse_strval, value_waits,
}

scan_int-digits_cr :
    (s : Bytes) (acc i : ℕ) → All IsDigit s → scan_int (s ++ cr ∷ []) acc i ≡ leave wait
unfolding scan_int
scan_int-digits_cr [] acc i h = refl
scan_int-digits_cr (c ∷ s) acc i (p, h) =
    ground (arith, scan_int-digits_cr s ((acc * 10 + (c - b'0')) % 2 ^ 32) (i + 1) h)

get_int-digits_cr :
    (s : Bytes) (val : ℤ)
    → All IsDigit s
    → get_int_until_crlf (start (s ++ cr ∷ [])) val ≡ (wait, start (s ++ cr ∷ []), val)
unfolding get_int_until_crlf
get_int-digits_cr [] val h = refl
get_int-digits_cr (c ∷ s) val h = ground (arith, scan_int-digits_cr (c ∷ s) 0 0 h)

parse_multi-digits_cr :
    (s : Bytes) (val : ℤ)
    → All IsDigit s
    → 0 < length s
    → parse_multi (start (b'*' ∷ (s ++ cr ∷ []))) val ≡ (wait, start (s ++ cr ∷ []), val)
unfolding parse_multi
parse_multi-digits_cr s val h p =
    ground (arith, get_int-digits_cr s val h, length-append s (cr ∷ []))

parse_multi_digit :
    (s : Bytes) (val : ℤ)
    → All IsDigit s
    → 2 ≤ length s
    → (more : Bytes) → 0 < length more
    → parse_multi (start (s ++ more)) val ≡ (error, start (s ++ more), val)
unfolding parse_multi
parse_multi_digit [] val h p more q = absurd (omega arith)
parse_multi_digit (c ∷ s) val h p more q = ground (arith, length-append s more)

-- If the input ends behind the carriage return of `*<digits>\r`, with two digits or more, the
-- parser waits, with its state as it was and `ptr` behind the `*`; called again there, with the
-- rest of the request, it returns an error.
pub resume_multi :
    (s more : Bytes)
    → All IsDigit s
    → 2 ≤ length s
    → (parse_request fresh (start (b'*' ∷ (s ++ cr ∷ [])))
        ≡ done (wait, fresh, start (s ++ cr ∷ [])))
      × (parse_request fresh (start (s ++ cr ∷ more)) ≡ done (error, fresh, start (s ++ cr ∷ more)))
unfolding parse_request
resume_multi s more h p = (
  rw (parse_multi-digits_cr s minus_one h (omega arith)) refl,
  rw (parse_multi_digit s minus_one h p (cr ∷ more) (omega arith)) refl,
)

drop-short : (n : ℕ) (s : Bytes) → length s ≤ n → drop n s ≡ []
drop-short zero [] h = refl
drop-short (suc n) [] h = refl
drop-short zero (c ∷ s) h = absurd (omega arith)
drop-short (suc n) (c ∷ s) h = drop-short n s (omega arith)

value_waits_overflows :
    (input : Bytes) (n : ℕ)
    → 2 ^ 31 - 2 ≤ n
    → n < 2 ^ 31
    → length input < 2 ^ 31 - 2
    → value_waits (start input) n ≡ false
value_waits_overflows input n lo hi q = ground arith

parse_value_overflows :
    (p : ProtoParse) (input result : Bytes) (n : ℕ)
    → 2 ^ 31 - 2 ≤ n
    → n < 2 ^ 31
    → length input < 2 ^ 31 - 2
    → parse_value p (start input) result n ≡ fault
unfolding parse_value
parse_value_overflows p input result n lo hi q =
    rw (value_waits_overflows input n lo hi q, drop-short n input (omega arith))

-- For a length of 2 ^ 31 - 2 or 2 ^ 31 - 1 the test for missing bytes overflows and passes, and the
-- bytes of the line break are read behind the end of an input of fewer than 2 ^ 31 - 2 bytes.
pub parse_strval_overflows :
    (p : ProtoParse) (input result : Bytes) (n : ℕ)
    → p.param_len ≡ pos n
    → 2 ^ 31 - 2 ≤ n
    → n < 2 ^ 31
    → length input < 2 ^ 31 - 2
    → parse_strval p (start input) result ≡ fault
unfolding parse_strval
parse_strval_overflows p input result n e lo hi q =
    rw (e, parse_strval) (parse_value_overflows p input result n lo hi q)
