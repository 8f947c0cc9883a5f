-- ===== src/Parser/Fuel.antt =====
-- The loop of `parseStrlist` ends: every round that goes on consumes a byte.
use yedis.Prelude.{
  ℕ, zero, suc, ◌+◌, ◌≤◌, ◌<◌, ◌≡◌, ◌≢◌, refl, Bool, true, false, List, [], ◌∷◌, arith, Bytes,
  length, length-drop, drop, ltb, if◌then◌else◌, Bool-cases, inl, inr,
}
use yedis.Prelude.Int.{ℤ, pos, negsuc, eqb_ℤ, ltb_ℤ}
use yedis.Outcome.{Outcome, done, fault, out_of_fuel, ◌>>=◌}
use yedis.Parser.{
  ParseResult, ok, wait, error, ProtoParse, Cursor, advance, Step, Parsed, get_int_until_crlf,
  parse_strlen, parse_value, parse_strval, parse_str, parse_param, parse_strlist,
  parse_strlist-more, parse_strlist-end, parse_request, more_params, continue, scan_int,
  scan_signed, tail_is_crlf, finish_int, Scan, stop, leave, store_param, minus_one, with_room,
  param_at, after_length, read_length, read_multi, parse_multi, enough_fuel,
}

advance-le : (n : ℕ) (c : Cursor) → length (advance n c).rest ≤ length c.rest
advance-le n c = omega (arith, length-drop n c.rest)

advance-lt :
    (n : ℕ) (c : Cursor) → 0 < n → 0 < length c.rest → length (advance n c).rest < length c.rest
advance-lt n c p q = omega (arith, length-drop n c.rest)

finish_int-le :
    (negative : Bool) (c : Cursor) (val : ℤ) (s : Scan)
    → length (finish_int negative c val s).1.rest ≤ length c.rest
finish_int-le negative c val (stop value i) = advance-le (i + 2) c
finish_int-le negative c val (leave r) = omega arith

scan_signed-le :
    (c : Cursor) (val : ℤ) (s : Bytes) → length (scan_signed c val s).1.rest ≤ length c.rest
unfolding scan_signed
scan_signed-le c val [] = finish_int-le false c val (scan_int [] 0 0)
scan_signed-le c val (b ∷ s) = ground (
  arith,
  finish_int-le true c val (scan_int s 0 1),
  finish_int-le false c val (scan_int s 0 1),
  finish_int-le false c val (scan_int (b ∷ s) 0 0),
)

get_int-le : (c : Cursor) (val : ℤ) → length (get_int_until_crlf c val).1.rest ≤ length c.rest
unfolding get_int_until_crlf
get_int-le c val = elim (Bool-cases (ltb (length c.rest) 3)) [
  | inl e ↦ rw (e, if◌then◌else◌) (omega arith)
  | inr e ↦ rw (e, if◌then◌else◌) (scan_signed-le c val c.rest)
]

parse_strlen-lt :
    (c : Cursor) (val : ℤ)
    → (parse_strlen c val).0 ≡ ok
    → length (parse_strlen c val).1.rest < length c.rest
unfolding parse_strlen
parse_strlen-lt c val h = ground (arith, get_int-le (advance 1 c) val, advance-lt 1 c (omega arith))

-- What a step may come to: it has fuel, and if it is `ok` it leaves fewer than `n` bytes.
abbrev Leaves : ℕ → Outcome Step → Type 0
Leaves n (done (r, p, c, s)) = r ≡ ok → length c.rest < n
Leaves n fault = Unit
Leaves n out_of_fuel = ⊥

Leaves-mono : (m n : ℕ) (o : Outcome Step) → m ≤ n → Leaves m o → Leaves n o
Leaves-mono m n (done (r, p, c, s)) h l = λ e. omega (arith, l e)
Leaves-mono m n fault h l = tt
Leaves-mono m n out_of_fuel h l = l

tail-long : (n : ℕ) (s : Bytes) → tail_is_crlf (drop n s) ≡ done true → 0 < length s
tail-long zero [] h = cc
tail-long (suc n) [] h = cc
tail-long n (c ∷ s) h = omega arith

parse_value-Leaves :
    (p : ProtoParse) (c : Cursor) (result : Bytes) (n : ℕ)
    → Leaves (length c.rest) (parse_value p c result n)
unfolding parse_value
parse_value-Leaves p c result n =
    ground (arith, advance-lt (n + 2) c (omega arith), tail-long n c.rest)

parse_strval-Leaves :
    (p : ProtoParse) (c : Cursor) (result : Bytes)
    → Leaves (length c.rest) (parse_strval p c result)
unfolding parse_strval
parse_strval-Leaves p c result =
    elim p.param_len
      as (λ z.
        Leaves (length c.rest) (elim z [ pos n ↦ parse_value p c result n | negsuc n ↦ fault ])) [
          | pos n ↦ parse_value-Leaves p c result n
          | negsuc n ↦ tt
        ]

after_length-Leaves :
    (p : ProtoParse) (c : Cursor) (result : Bytes)
    → Leaves (length c.rest + 1) (after_length p c result)
after_length-Leaves p c result = elim (Bool-cases (eqb_ℤ p.param_len minus_one)) [
  | inl e ↦ rw (e, if◌then◌else◌) (λ h. omega arith)
  | inr e ↦
      rw (e, if◌then◌else◌)
        (Leaves-mono (length c.rest) (length c.rest + 1) (parse_strval p c result) (omega arith)
          (parse_strval-Leaves p c result))
]

read_length-Leaves :
    (p : ProtoParse) (c : Cursor) (result : Bytes) (r : ParseResult) (c' : Cursor) (len : ℤ)
    → (r ≡ ok → length c'.rest < length c.rest)
    → Leaves (length c.rest) (read_length p result (r, c', len))
read_length-Leaves p c result ok c' len h = elim (Bool-cases (ltb_ℤ len minus_one)) [
  | inl e ↦ rw (e, if◌then◌else◌) (λ q. cc)
  | inr e ↦
      rw (e, if◌then◌else◌)
        (Leaves-mono (length c'.rest + 1) (length c.rest) _ (omega (arith, h refl))
          (after_length-Leaves (record p { param_len = len }) c' result))
]
read_length-Leaves p c result wait c' len h = ground arith
read_length-Leaves p c result error c' len h = λ q. cc

parse_str-Leaves :
    (p : ProtoParse) (c : Cursor) (result : Bytes) → Leaves (length c.rest) (parse_str p c result)
unfolding parse_str
parse_str-Leaves p c result = elim (Bool-cases (eqb_ℤ p.param_len minus_one)) [
  | inl e ↦
      rw (e, if◌then◌else◌)
        (let (r, c', len) = parse_strlen c p.param_len in
          read_length-Leaves p c result r c' len (parse_strlen-lt c p.param_len))
  | inr e ↦ rw (e, if◌then◌else◌) (parse_strval-Leaves p c result)
]

-- The same of a round of the loop.
abbrev RoundLeaves : ℕ → Outcome Parsed → Type 0
RoundLeaves n (done (r, p, c)) = r ≡ ok → length c.rest < n
RoundLeaves n fault = Unit
RoundLeaves n out_of_fuel = ⊥

store_param-Leaves :
    (p : ProtoParse) (l : List Bytes) (n : ℕ) (o : Outcome Step)
    → Leaves n o
    → RoundLeaves n (o >>= λ step. done (store_param p l step))
store_param-Leaves p l n (done (ok, p', c, s)) h = h
store_param-Leaves p l n (done (wait, p', c, s)) h = h
store_param-Leaves p l n (done (error, p', c, s)) h = h
store_param-Leaves p l n fault h = tt
store_param-Leaves p l n out_of_fuel h = h

parse_param-Leaves : (p : ProtoParse) (c : Cursor) → RoundLeaves (length c.rest) (parse_param p c)
unfolding parse_param
parse_param-Leaves p c =
    let results = with_room p.num_of_param p.params in
    let s = param_at p.num_of_param results in
    store_param-Leaves p results (length c.rest) (parse_str p c s) (parse_str-Leaves p c s)

abbrev HasFuel : Outcome Parsed → Type 0
HasFuel (done x) = Unit
HasFuel fault = Unit
HasFuel out_of_fuel = ⊥

continue-HasFuel :
    (loop : ProtoParse → Cursor → Outcome Parsed) (n : ℕ) (o : Outcome Parsed)
    → ((p : ProtoParse) (c : Cursor) → length c.rest < n → HasFuel (loop p c))
    → RoundLeaves n o
    → HasFuel (o >>= continue loop)
continue-HasFuel loop n (done (ok, p, c)) goes h = goes p c (h refl)
continue-HasFuel loop n (done (wait, p, c)) goes h = tt
continue-HasFuel loop n (done (error, p, c)) goes h = tt
continue-HasFuel loop n fault goes h = tt
continue-HasFuel loop n out_of_fuel goes h = h

parse_strlist-HasFuel :
    (fuel : ℕ) (p : ProtoParse) (c : Cursor)
    → length c.rest < fuel
    → HasFuel (parse_strlist fuel p c)
parse_strlist-HasFuel zero p c h = absurd (omega arith)
parse_strlist-HasFuel (suc fuel) p c h = elim (Bool-cases (more_params p)) [
  | inl e ↦ rw (parse_strlist-more fuel p c e) (
      continue-HasFuel (parse_strlist fuel) (length c.rest) (parse_param p c)
        (λ p' c' q. parse_strlist-HasFuel fuel p' c' (omega arith)) (parse_param-Leaves p c))
  | inr e ↦ rw (parse_strlist-end fuel p c e) tt
]

read_multi-HasFuel :
    (p : ProtoParse) (r : ParseResult) (c : Cursor) (multi : ℤ)
    → HasFuel (read_multi p (r, c, multi))
read_multi-HasFuel p ok c multi = elim (Bool-cases (ltb_ℤ multi minus_one)) [
  | inl e ↦ rw (e, if◌then◌else◌) tt
  | inr e ↦
      rw (e, if◌then◌else◌)
        (parse_strlist-HasFuel (enough_fuel c) (record p { multi = multi }) c (omega arith))
]
read_multi-HasFuel p wait c multi = ground arith
read_multi-HasFuel p error c multi = tt

HasFuel-ne : (o : Outcome Parsed) → HasFuel o → o ≢ out_of_fuel
HasFuel-ne (done x) h e = cc
HasFuel-ne fault h e = cc
HasFuel-ne out_of_fuel h e = h

parse_request-HasFuel : (p : ProtoParse) (c : Cursor) → HasFuel (parse_request p c)
unfolding parse_request
parse_request-HasFuel p c = elim (Bool-cases (eqb_ℤ p.multi minus_one)) [
  | inl e ↦
      rw (e, if◌then◌else◌)
        (let (r, c', multi) = parse_multi c p.multi in read_multi-HasFuel p r c' multi)
  | inr e ↦ rw (e, if◌then◌else◌) (parse_strlist-HasFuel (enough_fuel c) p c (omega arith))
]

-- Whatever the state of the parser and whatever the bytes, parsing ends: the fuel of one round more
-- than there are bytes does not run out.
pub parse_request-ne-out_of_fuel : (p : ProtoParse) (c : Cursor) → parse_request p c ≢ out_of_fuel
parse_request-ne-out_of_fuel p c = HasFuel-ne (parse_request p c) (parse_request-HasFuel p c)
