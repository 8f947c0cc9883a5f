-- ===== src/Parser.antt =====
-- src/YedisParser.cpp: the incremental parser of requests.
-- `ptr` and `end` are a cursor: the bytes from `ptr` to `end`, and how far `ptr` has gone past
-- `end`. An `int` that overflows wraps around. A `fault` is a failed assert or a read past `end`.
mod Tests
pub mod Number
pub mod Defects
pub mod Fuel
pub mod RoundTrip
use yedis.Prelude.{
  ℕ, zero, suc, ◌+◌, ◌-◌, ◌*◌, ◌%◌, ◌^◌, ◌≡◌, refl, Bool, true, false, Option, none, some, List, [],
  ◌∷◌, ◌++◌, ◌&&◌, ◌||◌, not, Bytes, codes, cr, lf, crlf, length, get_elem?, set, take, drop,
  replicate, leb, ltb, ◌==◌, if◌then◌else◌,
}
use yedis.Prelude.Int.{ℤ, pos, negsuc, ◌+ℤ◌, ltb_ℤ, eqb_ℤ, sub_ℕ, signed32, to_int}
use yedis.Decimal.{is_digit}
use yedis.Outcome.{Outcome, done, fault, out_of_fuel, ◌>>=◌}

pub data ParseResult : Type 0 where
  ok wait error : ParseResult

pub record ProtoParse : Type 0 where
  pub multi : ℤ
  pub param_len : ℤ
  pub num_of_param : ℕ
  pub params : List Bytes

abbrev pub fresh : ProtoParse
fresh = record { multi = negsuc 0; param_len = negsuc 0; num_of_param = 0; params = [] }

pub record Cursor : Type 0 where
  pub rest : Bytes
  pub past : ℕ

abbrev pub start : Bytes → Cursor
start input = record { rest = input; past = 0 }

-- `ptr += n`
abbrev pub advance : ℕ → Cursor → Cursor
advance n c = record { rest = drop n c.rest; past = c.past + (n - length c.rest) }

-- `end - ptr < n`
abbrev pub short : Cursor → ℕ → Bool
short c n = ltb (length c.rest) (n + c.past)

-- `*ptr == byte`, asked only before `end`.
abbrev pub at_byte : ℕ → Bytes → Bool
at_byte byte [] = false
at_byte byte (c ∷ s) = c == byte

abbrev pub minus_one : ℤ
minus_one = negsuc 0

-- `while (m_vecParams.size() > 3) pop_back()`
unfoldable pub reset : ProtoParse → ProtoParse
reset p = record {
  multi = minus_one;
  param_len = minus_one;
  num_of_param = 0;
  params = take 3 p.params;
}

abbrev pub is_initial_state : ProtoParse → Bool
is_initial_state p = eqb_ℤ p.multi minus_one

-- How the loop of `getIntUntilCRLF` ends: at index `i` with a value, or by a return.
pub data Scan : Type 0 where
  stop : ℕ → ℕ → Scan
  leave : ParseResult → Scan

-- A carriage return must be followed by a line feed, if anything follows.
abbrev pub ends_line : ℕ → Bytes → Bool
ends_line c [] = c == cr
ends_line c (d ∷ s) = c == cr && d == lf

abbrev pub no_more : Bytes → Bool
no_more [] = true
no_more (c ∷ s) = false

-- The loop from index `i`; the list is what is left of the `nBytes` bytes.
unfoldable pub scan_int : Bytes → ℕ → ℕ → Scan
scan_int [] value i = stop value i
scan_int (c ∷ s) value i = elim (is_digit c) [
  | true ↦ scan_int s ((value * 10 + (c - b'0')) % 2 ^ 32) (i + 1)
  | false ↦
      if not (ends_line c s) then leave error else if no_more s then leave wait else stop value i
]

-- `value *= -1` on the bit pattern of an `int`.
abbrev pub negated : Bool → ℕ → ℕ
negated false w = w
negated true w = (2 ^ 32 - w) % 2 ^ 32

abbrev finish_int : Bool → Cursor → ℤ → Scan → ParseResult × Cursor × ℤ
finish_int negative c val (stop value i) =
    (ok, advance (i + 2) c, signed32 (negated negative value))
finish_int negative c val (leave r) = (r, c, val)

scan_signed : Cursor → ℤ → Bytes → ParseResult × Cursor × ℤ
scan_signed c val [] = finish_int false c val (scan_int [] 0 0)
scan_signed c val (b ∷ s) =
    if b == b'-'
    then finish_int true c val (scan_int s 0 1)
    else if b == b'+'
    then finish_int false c val (scan_int s 0 1)
    else finish_int false c val (scan_int (b ∷ s) 0 0)

-- `nBytes` is `end - ptr` in every call.
unfoldable pub get_int_until_crlf : Cursor → ℤ → ParseResult × Cursor × ℤ
unfolding scan_signed
get_int_until_crlf c val =
    if ltb (length c.rest) 3 then (wait, c, val) else scan_signed c val c.rest

-- `ptr` stays behind the `*` whatever `getIntUntilCRLF` returns.
unfoldable pub parse_multi : Cursor → ℤ → ParseResult × Cursor × ℤ
parse_multi c result =
    if short c 3
    then (wait, c, result)
    else if not (at_byte b'*' c.rest)
    then (error, c, result)
    else get_int_until_crlf (advance 1 c) result

abbrev is_ok : ParseResult → Bool
is_ok ok = true
is_ok wait = false
is_ok error = false

abbrev is_error : ParseResult → Bool
is_error ok = false
is_error wait = false
is_error error = true

-- `ptr` goes back before the `$` unless the length was read.
abbrev restore : Cursor → ParseResult × Cursor × ℤ → ParseResult × Cursor × ℤ
restore c (r, c', val) = if is_ok r then (r, c', val) else (r, c, val)

unfoldable pub parse_strlen : Cursor → ℤ → ParseResult × Cursor × ℤ
parse_strlen c result =
    if short c 3
    then (wait, c, result)
    else if not (at_byte b'$' c.rest)
    then (error, c, result)
    else restore c (get_int_until_crlf (advance 1 c) result)

-- `tail[0] == '\r' && tail[1] == '\n'`, each byte read only if it is needed.
abbrev pub tail_is_crlf : Bytes → Outcome Bool
tail_is_crlf [] = fault
tail_is_crlf (c ∷ []) = if c == cr then fault else done false
tail_is_crlf (c ∷ d ∷ s) = done (c == cr && d == lf)

-- What a step of the parser returns: the result, the parser, `ptr` and the parameter.
abbrev pub Step : Type 0
Step = ParseResult × ProtoParse × Cursor × Bytes

-- The test `static_cast<int>(end - ptr) < m_nParamLen + 2`.
abbrev pub value_waits : Cursor → ℕ → Bool
value_waits c n = ltb_ℤ (to_int (sub_ℕ (length c.rest) c.past)) (to_int (pos (n + 2)))

-- The value ends by a line break, or else the parser and `ptr` stay as they are.
abbrev end_value : ProtoParse → Cursor → Bytes → ℕ → Bool → Step
end_value p c result n true =
    (ok, record p { param_len = minus_one }, advance (n + 2) c, take n c.rest)
end_value p c result n false = (error, p, c, result)

parse_value : ProtoParse → Cursor → Bytes → ℕ → Outcome Step
parse_value p c result n =
    if value_waits c n
    then done (wait, p, c, result)
    else (tail_is_crlf (drop n c.rest) >>= λ good. done (end_value p c result n good))

unfoldable pub parse_strval : ProtoParse → Cursor → Bytes → Outcome Step
unfolding parse_value
parse_strval p c result = elim p.param_len [ pos n ↦ parse_value p c result n | negsuc n ↦ fault ]

-- Behind the length: a null string has no bytes.
abbrev after_length : ProtoParse → Cursor → Bytes → Outcome Step
after_length p c result =
    if eqb_ℤ p.param_len minus_one then done (ok, p, c, []) else parse_strval p c result

abbrev read_length : ProtoParse → Bytes → ParseResult × Cursor × ℤ → Outcome Step
read_length p result (r, c, len) =
    let p' = record p { param_len = len } in
    if is_error r || ltb_ℤ len minus_one
    then done (error, p', c, result)
    else if not (is_ok r)
    then done (wait, p', c, result)
    else after_length p' c result

unfoldable pub parse_str : ProtoParse → Cursor → Bytes → Outcome Step
parse_str p c result =
    if eqb_ℤ p.param_len minus_one
    then read_length p result (parse_strlen c p.param_len)
    else after_length p c result

-- `results.resize(n)`
abbrev pub resize : ℕ → List Bytes → List Bytes
resize n l = take n l ++ replicate (n - length l) []

abbrev pub param_at : ℕ → List Bytes → Bytes
param_at i l = elim (get_elem? l i) [ none ↦ [] | some s ↦ s ]

-- `results` has more than `m_nNumOfParam` elements before `parseStr` writes one of them.
abbrev pub with_room : ℕ → List Bytes → List Bytes
with_room n l = if ltb (length l) (n + 1) then resize (n + 1) l else l

abbrev pub Parsed : Type 0
Parsed = ParseResult × ProtoParse × Cursor

abbrev pub more_params : ProtoParse → Bool
more_params p = ltb_ℤ (to_int (pos p.num_of_param)) p.multi

-- `++ m_nNumOfParam` after a parameter that was read; the parameter is stored in any case.
abbrev store_param : ProtoParse → List Bytes → Step → Parsed
store_param p results (r, p', c, s) =
    let stored = record p' { params = set results p.num_of_param s } in
    if is_ok r then (r, record stored { num_of_param = p.num_of_param + 1 }, c) else (r, stored, c)

-- One round of the loop of `parseStrlist`: `parseStr` on `results[m_nNumOfParam]`.
unfoldable pub parse_param : ProtoParse → Cursor → Outcome Parsed
parse_param p c = do
  let results = with_room p.num_of_param p.params
  step ← parse_str p c (param_at p.num_of_param results)
  done (store_param p results step)

abbrev pub continue : (ProtoParse → Cursor → Outcome Parsed) → Parsed → Outcome Parsed
continue loop (ok, p, c) = loop p c
continue loop (wait, p, c) = done (wait, p, c)
continue loop (error, p, c) = done (error, p, c)

unfoldable pub parse_strlist : ℕ → ProtoParse → Cursor → Outcome Parsed
parse_strlist zero p c = out_of_fuel
parse_strlist (suc fuel) p c = elim (more_params p) [
  | true ↦ parse_param p c >>= continue (parse_strlist fuel)
  | false ↦ done (ok, record p { params = resize p.num_of_param p.params }, c)
]

pub parse_strlist-more :
    (fuel : ℕ) (p : ProtoParse) (c : Cursor)
    → more_params p ≡ true
    → parse_strlist (suc fuel) p c ≡ (parse_param p c >>= continue (parse_strlist fuel))
unfolding parse_strlist
parse_strlist-more fuel p c h = rw (h, parse_strlist)

pub parse_strlist-end :
    (fuel : ℕ) (p : ProtoParse) (c : Cursor)
    → more_params p ≡ false
    → parse_strlist (suc fuel) p c
      ≡ done (ok, record p { params = resize p.num_of_param p.params }, c)
unfolding parse_strlist
parse_strlist-end fuel p c h = rw (h, parse_strlist)

-- Every round of the loop that goes on consumes a byte.
abbrev pub enough_fuel : Cursor → ℕ
enough_fuel c = length c.rest + 1

abbrev read_multi : ProtoParse → ParseResult × Cursor × ℤ → Outcome Parsed
read_multi p (r, c, multi) =
    let p' = record p { multi = multi } in
    if is_error r || ltb_ℤ multi minus_one
    then done (error, p', c)
    else if not (is_ok r)
    then done (wait, p', c)
    else parse_strlist (enough_fuel c) p' c

unfoldable pub parse_request : ProtoParse → Cursor → Outcome Parsed
parse_request p c =
    if eqb_ℤ p.multi minus_one
    then read_multi p (parse_multi c p.multi)
    else parse_strlist (enough_fuel c) p c
