-- ===== src/Decimal.antt =====
-- Decimal text: `snprintf` with `%lu` and `%ld`, as YedisFormate.cpp and YString.cpp call it, and
-- the number that a run of digits spells.
pub mod Value
use yedis.Prelude.{
  ℕ, zero, suc, ◌+◌, ◌-◌, ◌*◌, ◌/◌, ◌%◌, ◌≤◌, ◌≡◌, refl, Bool, true, false, List, [], ◌∷◌, ◌++◌,
  ◌&&◌, Bytes, codes, leb, ◌==◌, if◌then◌else◌,
}
use yedis.Prelude.Int.{ℤ, pos, negsuc}

-- `isdigit` on a byte.
abbrev pub is_digit : ℕ → Bool
is_digit c = leb b'0' c && leb c b'9'

-- The digits of `n` before `out`, at most one for each unit of fuel.
pub emit : ℕ → ℕ → Bytes → Bytes
emit zero n out = out
emit (suc fuel) n out = elim (n == 0) [
  | true ↦ out
  | false ↦ emit fuel (n / 10) ((b'0' + n % 10) ∷ out)
]

-- `%lu`: `n` has at most `n` digits.
unfoldable pub print_nat : ℕ → Bytes
unfolding emit
print_nat n = if n == 0 then b'0' ∷ [] else emit n n []

-- `%ld`
unfoldable pub print_int : ℤ → Bytes
unfolding print_nat
print_int (pos n) = print_nat n
print_int (negsuc n) = b'-' ∷ print_nat (suc n)

-- The number that digits spell behind `acc`.
abbrev pub value : ℕ → Bytes → ℕ
value acc [] = acc
value acc (c ∷ s) = value (acc * 10 + (c - b'0')) s

print_int-test : print_int (negsuc 120) ≡ codes "-121"
unfolding print_int
print_int-test = refl
