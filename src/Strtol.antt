-- ===== src/Strtol.antt =====
-- `Ystring::stringToLong` (src/YString.cpp) and its copy `YedisStrtol` (src/YList.cpp), over the
-- C library's `strtol` with base 0 and a 64-bit `long`.
pub mod Print
mod Tests
use yedis.Prelude.{
  ℕ, zero, suc, ◌+◌, ◌-◌, ◌*◌, ◌^◌, ◌≡◌, refl, Bool, true, false, Option, none, some, List, [], ◌∷◌,
  ◌&&◌, ◌||◌, Bytes, codes, length, leb, ltb, ◌==◌, if◌then◌else◌,
}
use yedis.Prelude.Int.{ℤ, pos, neg}
use yedis.Decimal.{is_digit}

-- `isspace` in the C locale.
abbrev is_space : ℕ → Bool
is_space c = c == 32 || leb 9 c && leb c 13

unfoldable pub skip_spaces : Bytes → Bytes
skip_spaces [] = []
skip_spaces (c ∷ s) = if is_space c then skip_spaces s else c ∷ s

-- The value of a digit or a letter, in bases up to 36.
abbrev pub digit_value : ℕ → Option ℕ
digit_value c =
    if is_digit c
    then some (c - b'0')
    else if leb b'a' c && leb c b'z'
    then some (c - 87)
    else if leb b'A' c && leb c b'Z'
    then some (c - 55)
    else none

-- The value of a digit of the base.
abbrev pub digit_of : ℕ → ℕ → Option ℕ
digit_of base c = elim (digit_value c) [
  | none ↦ none
  | some d ↦ if ltb d base then some d else none
]

-- The longest run of digits of the base, behind `acc`, and what follows it.
unfoldable pub span_digits : ℕ → ℕ → Bytes → ℕ × Bytes
span_digits base acc [] = (acc, [])
span_digits base acc (c ∷ s) = elim (digit_of base c) [
  | none ↦ (acc, c ∷ s)
  | some d ↦ span_digits base (acc * base + d) s
]

abbrev has_digit : ℕ → Bytes → Bool
has_digit base [] = false
has_digit base (c ∷ s) = elim (digit_of base c) [ none ↦ false | some d ↦ true ]

abbrev is_x : ℕ → Bool
is_x c = c == b'x' || c == b'X'

-- Base 0: hexadecimal behind `0x` and a digit, octal behind `0`, otherwise decimal.
unfoldable pub detect_base : Bytes → ℕ × Bytes
detect_base [] = (10, [])
detect_base (c ∷ []) = if c == b'0' then (8, c ∷ []) else (10, c ∷ [])
detect_base (c ∷ x ∷ s) =
    if c == b'0'
    then (if is_x x && has_digit 16 s then (16, s) else (8, c ∷ x ∷ s))
    else (10, c ∷ x ∷ s)

abbrev pub long_max : ℕ
long_max = 2 ^ 63 - 1

-- What a call of `strtol` leaves: the text at `pEnd`, whether `errno` is ERANGE, and the value.
pub record Converted : Type 0 where
  pub rest : Bytes
  pub erange : Bool
  pub val : ℤ

-- The digits behind the sign. With none of them `pEnd` is the start of the text.
unfoldable pub convert : Bool → Bytes → Bytes → Converted
convert negative start body =
    let (base, s) = detect_base body in
    let (n, rest) = span_digits base 0 s in
    if has_digit base s
    then (if negative
        then record { rest = rest; erange = ltb (long_max + 1) n; val = neg n }
        else record { rest = rest; erange = ltb long_max n; val = pos n })
    else record { rest = start; erange = false; val = pos 0 }

unfoldable pub signed : Bytes → Bytes → Converted
signed start [] = convert false start []
signed start (c ∷ s) =
    if c == b'-'
    then convert true start s
    else if c == b'+'
    then convert false start s
    else convert false start (c ∷ s)

-- `strtol(ptr, &pEnd, 0)`
unfoldable pub strtol : Bytes → Converted
strtol s = signed s (skip_spaces s)

abbrev pub is_nil : Bytes → Bool
is_nil [] = true
is_nil (c ∷ s) = false

-- The number, where the function returns true.
unfoldable pub string_to_long : Bytes → Option ℤ
string_to_long s =
    if length s == 0 || ltb 20 (length s)
    then none
    else (let r = strtol s in if r.erange then none else if is_nil r.rest then some r.val else none)
