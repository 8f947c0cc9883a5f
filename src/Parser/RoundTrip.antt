-- ===== src/Parser/RoundTrip.antt =====
-- The parser reads back what the formatters of YedisFormate.cpp write.
use yedis.Prelude.{
  ℕ, zero, suc, ◌+◌, ◌-◌, ◌^◌, ◌≤◌, ◌<◌, ◌≡◌, refl, sym, ap, ◌∙◌, false, List, [], ◌∷◌, ◌++◌, arith,
  Bytes, crlf, length, length-append, take-length-append, drop-length-append, ltb, le→ltb, lt→ltb,
  set, take-length, take-length_add, append_assoc, append-nil,
}
use yedis.Prelude.Int.{ℤ, pos}
use yedis.Decimal.{print_nat}
use yedis.Decimal.Value.{length-print_nat_pos}
use yedis.Outcome.{done}
use yedis.Format.{bulk, bulks, array}
use yedis.Parser.{
  ProtoParse, ok, start, fresh, minus_one, parse_strlen, parse_multi, value_waits, parse_value,
  parse_strval, parse_str, parse_param, parse_strlist, parse_strlist-more, parse_strlist-end,
  parse_request, with_room, param_at, more_params, resize,
}
use yedis.Parser.Number.{get_int-print_nat, advance-line}

-- A line that announces `n`, behind one more byte, is long enough to be looked at.
header_long : (n : ℕ) (more : Bytes) → 3 ≤ length (print_nat n ++ (crlf ++ more))
header_long n more =
    omega (arith, length-append (print_nat n) (crlf ++ more), length-print_nat_pos n)

parse_strlen-header :
    (n : ℕ) (more : Bytes) (val : ℤ)
    → n < 2 ^ 31
    → parse_strlen (start (b'$' ∷ (print_nat n ++ (crlf ++ more)))) val ≡ (ok, start more, pos n)
unfolding parse_strlen
parse_strlen-header n more val fits =
    ground (arith, header_long n more, get_int-print_nat n more val fits)

parse_multi-header :
    (n : ℕ) (more : Bytes) (val : ℤ)
    → n < 2 ^ 31
    → parse_multi (start (b'*' ∷ (print_nat n ++ (crlf ++ more)))) val ≡ (ok, start more, pos n)
unfolding parse_multi
parse_multi-header n more val fits =
    ground (arith, header_long n more, get_int-print_nat n more val fits)

value_ready :
    (s more : Bytes)
    → length (s ++ (crlf ++ more)) < 2 ^ 31
    → value_waits (start (s ++ (crlf ++ more))) (length s) ≡ false
value_ready s more fits = ground (arith, length-append s (crlf ++ more))

parse_value-line :
    (p : ProtoParse) (s more result : Bytes)
    → length (s ++ (crlf ++ more)) < 2 ^ 31
    → parse_value p (start (s ++ (crlf ++ more))) result (length s)
      ≡ done (ok, record p { param_len = minus_one }, start more, s)
unfolding parse_value
parse_value-line p s more result fits = rw (
  value_ready s more fits,
  drop-length-append,
  advance-line s more (length s + 2) refl,
  take-length-append,
)

-- A parser between two parameters.
abbrev pub between : ℤ → ℕ → List Bytes → ProtoParse
between multi num params = record {
  multi = multi;
  param_len = minus_one;
  num_of_param = num;
  params = params;
}

fits_length : (s more : Bytes) → length (s ++ (crlf ++ more)) < 2 ^ 31 → length s < 2 ^ 31
fits_length s more fits = omega (arith, length-append s (crlf ++ more))

-- A bulk string is read back, and the bytes behind it are left.
parse_str-bulk :
    (multi : ℤ) (num : ℕ) (params : List Bytes) (s more result : Bytes)
    → length (s ++ (crlf ++ more)) < 2 ^ 31
    → parse_str
        (between multi num params)
        (start (b'$' ∷ (print_nat (length s) ++ (crlf ++ (s ++ (crlf ++ more))))))
        result
      ≡ done (ok, between multi num params, start more, s)
unfolding parse_str parse_strval
parse_str-bulk multi num params s more result fits =
    rw
      (
        parse_strlen-header (length s) (s ++ (crlf ++ more)) minus_one (fits_length s more fits),
        le→ltb (length s + 1) 0 (omega arith),
      )
      (parse_value-line
        (record { multi = multi; param_len = pos (length s); num_of_param = num; params = params })
        s more result fits)

bulk-append :
    (s more : Bytes)
    → bulk s ++ more ≡ b'$' ∷ (print_nat (length s) ++ (crlf ++ (s ++ (crlf ++ more))))
bulk-append s more = simp append_assoc

resize-length : (l : List Bytes) → resize (length l) l ≡ l
resize-length l = ground (arith, take-length l, append-nil l)

with_room-length : (l : List Bytes) → with_room (length l) l ≡ l ++ [] ∷ []
with_room-length l =
    let one : length l + 1 - length l ≡ 1 = omega arith in
    rw (lt→ltb (length l) (length l + 1) (omega arith), one, take-length_add l 1)

set-append : (l : List Bytes) (s t : Bytes) → set (l ++ s ∷ []) (length l) t ≡ l ++ t ∷ []
set-append [] s t = refl
set-append (x ∷ l) s t = ap (λ k. x ∷ k) (set-append l s t)

-- One round of the loop reads one parameter.
parse_param-bulk :
    (multi : ℤ) (read : List Bytes) (s more : Bytes)
    → length (bulk s ++ more) < 2 ^ 31
    → parse_param (between multi (length read) read) (start (bulk s ++ more))
      ≡ done (ok, between multi (length read + 1) (read ++ s ∷ []), start more)
unfolding parse_param
parse_param-bulk multi read s more fits =
    let fits' : length (s ++ (crlf ++ more)) < 2 ^ 31 = omega (
      arith,
      ap length (bulk-append s more),
      length-append (print_nat (length s)) (crlf ++ (s ++ (crlf ++ more))),
    ) in
    rw (
      with_room-length read,
      bulk-append s more,
      parse_str-bulk multi (length read) read s more (param_at (length read) (read ++ [] ∷ []))
          fits',
      set-append read [] s,
    )

more_params-between :
    (total num : ℕ) (read : List Bytes)
    → total < 2 ^ 31
    → num ≤ total
    → more_params (between (pos total) num read) ≡ ltb num total
more_params-between total num read few h = ground arith

-- The loop reads what is left of an array, and stops at its end.
parse_strlist-bulks :
    (fuel total : ℕ) (read l : List Bytes) (more : Bytes)
    → total ≡ length read + length l
    → length l < fuel
    → total < 2 ^ 31
    → length (bulks l ++ more) < 2 ^ 31
    → parse_strlist fuel (between (pos total) (length read) read) (start (bulks l ++ more))
      ≡ done (ok, between (pos total) total (read ++ l), start more)
unfolding parse_strlist
parse_strlist-bulks zero total read l more e h few fits = absurd (omega arith)
parse_strlist-bulks (suc fuel) total read [] more e h few fits =
    let e' : total ≡ length read = omega arith in
    let stops =
      more_params-between total (length read) read few (omega arith)
      ∙ le→ltb (length read) total (omega arith) in
    rw (
      parse_strlist-end fuel (between (pos total) (length read) read) (start more) stops,
      resize-length read,
      append-nil read,
      e',
    )
parse_strlist-bulks (suc fuel) total read (s ∷ l) more e h few fits =
    let goes_on =
      more_params-between total (length read) read few (omega arith)
      ∙ lt→ltb (length read) total (omega arith) in
    let e₁ : total ≡ length (read ++ s ∷ []) + length l =
      omega (arith, length-append read (s ∷ [])) in
    let f₁ : length (bulk s ++ (bulks l ++ more)) < 2 ^ 31 =
      omega (arith, ap length (append_assoc (bulk s) (bulks l) more)) in
    let f₂ : length (bulks l ++ more) < 2 ^ 31 =
      omega (arith, length-append (bulk s) (bulks l ++ more)) in
    rw
      (
        append_assoc (bulk s) (bulks l) more,
        parse_strlist-more fuel (between (pos total) (length read) read)
            (start (bulk s ++ (bulks l ++ more))) goes_on,
        parse_param-bulk (pos total) read s (bulks l ++ more) f₁,
        sym (length-append read (s ∷ [])),
      )
      (parse_strlist-bulks fuel total (read ++ s ∷ []) l more e₁ (omega arith) few f₂
        ∙ ap (λ k. done (ok, between (pos total) total k, start more))
            (append_assoc read (s ∷ []) l))

length-bulks : (l : List Bytes) → length l ≤ length (bulks l)
length-bulks [] = omega arith
length-bulks (s ∷ l) = omega (arith, length-append (bulk s) (bulks l), length-bulks l)

array-append :
    (l : List Bytes) (more : Bytes)
    → array l ++ more ≡ b'*' ∷ (print_nat (length l) ++ (crlf ++ (bulks l ++ more)))
array-append l more = simp append_assoc

-- A fresh parser reads an array of bulk strings, as YedisFormate.cpp writes it, back as the list of
-- the strings, for strings of any bytes; it stops with `ok` right behind the array, and leaves the
-- bytes that follow. The input is shorter than 2 ^ 31 bytes, the range of an `int`.
pub parse_request-array :
    (l : List Bytes) (more : Bytes)
    → length (array l ++ more) < 2 ^ 31
    → parse_request fresh (start (array l ++ more))
      ≡ done (ok, between (pos (length l)) (length l) l, start more)
unfolding parse_request
parse_request-array l more fits =
    let long = ap length (array-append l more) in
    let split = length-append (print_nat (length l)) (crlf ++ (bulks l ++ more)) in
    let inner = length-append (bulks l) more in
    let few : length l < 2 ^ 31 = omega (arith, long, split, inner, length-bulks l) in
    let f₁ : length (bulks l ++ more) < 2 ^ 31 = omega (arith, long, split) in
    rw
      (
        array-append l more,
        parse_multi-header (length l) (bulks l ++ more) minus_one few,
        le→ltb (length l + 1) 0 (omega arith),
      )
      (parse_strlist-bulks (length (bulks l ++ more) + 1) (length l) [] l more (omega arith)
        (omega (arith, inner, length-bulks l)) few f₁)
