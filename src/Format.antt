-- ===== src/Format.antt =====
-- src/YedisFormate.cpp: the replies of the protocol. A reply buffer is the bytes that it holds to
-- be read, and `pushData` appends to them.
use yedis.Prelude.{
  ℕ, ◌-◌, ◌≡◌, refl, sym, Option, none, some, List, [], ◌∷◌, ◌++◌, append-nil, append_assoc, arith,
  Bytes, codes, crlf, length, length-append, ltb, if◌then◌else◌,
}
use yedis.Prelude.Int.{ℤ}
use yedis.Decimal.{print_nat, print_int}

abbrev pub Reply : Type 0
Reply = Bytes

-- `reply->pushData(data, data.size())`
abbrev pub push_data : Bytes → Reply → Reply
push_data bytes r = r ++ bytes

-- Every formatter returns 0 for a null reply, otherwise how far `readableSize` has grown.
abbrev pub measured : (Reply → Reply) → Option Reply → ℕ × Option Reply
measured write none = (0, none)
measured write (some r) = let r' = write r in (length r' - length r, some r')

write_int : ℤ → Reply → Reply
write_int value r = push_data (print_int value ++ crlf) (push_data (b':' ∷ []) r)

unfoldable pub format_int : ℤ → Option Reply → ℕ × Option Reply
unfolding write_int
format_int value = measured (write_int value)

write_single : Bytes → Reply → Reply
write_single str r = push_data crlf (push_data str (push_data (b'+' ∷ []) r))

unfoldable pub format_single : Bytes → Option Reply → ℕ × Option Reply
unfolding write_single
format_single str = measured (write_single str)

write_header : ℕ → Reply → Reply
write_header n r = push_data (print_nat n ++ crlf) (push_data (b'*' ∷ []) r)

unfoldable pub pre_format_multi_bulk : ℕ → Option Reply → ℕ × Option Reply
unfolding write_header
pre_format_multi_bulk n = measured (write_header n)

-- The text is pushed if it is not empty.
write_bulk : Bytes → Reply → Reply
write_bulk str r =
    let header = push_data (print_nat (length str) ++ crlf) (push_data (b'$' ∷ []) r) in
    push_data crlf (if ltb 0 (length str) then push_data str header else header)

unfoldable pub format_bulk : Bytes → Option Reply → ℕ × Option Reply
unfolding write_bulk
format_bulk str = measured (write_bulk str)

-- The only formatter that does not test for null: its result is that of `pushData`.
unfoldable pub format_empty_bulk : Reply → ℕ × Reply
format_empty_bulk r = (6, push_data (codes "$0" ++ crlf ++ crlf) r)

unfoldable pub format_null : Option Reply → ℕ × Option Reply
format_null = measured (push_data (codes "$-1" ++ crlf))

unfoldable pub format_null_array : Option Reply → ℕ × Option Reply
format_null_array = measured (push_data (codes "*-1" ++ crlf))

unfoldable pub format_ok : Option Reply → ℕ × Option Reply
format_ok = measured (push_data (codes "+OK" ++ crlf))

unfoldable pub format1 : Option Reply → ℕ × Option Reply
format1 = measured (push_data (codes ":1" ++ crlf))

unfoldable pub format0 : Option Reply → ℕ × Option Reply
format0 = measured (push_data (codes ":0" ++ crlf))

-- What the protocol prescribes for a bulk string, for the header of an array and for an integer.
abbrev pub bulk : Bytes → Bytes
bulk s = b'$' ∷ (print_nat (length s) ++ (crlf ++ (s ++ crlf)))

abbrev pub array_header : ℕ → Bytes
array_header n = b'*' ∷ (print_nat n ++ crlf)

abbrev pub integer : ℤ → Bytes
integer z = b':' ∷ (print_int z ++ crlf)

abbrev pub bulks : List Bytes → Bytes
bulks [] = []
bulks (s ∷ l) = bulk s ++ bulks l

-- A request, or a reply, that is an array of bulk strings.
abbrev pub array : List Bytes → Bytes
array l = array_header (length l) ++ bulks l

measured-some :
    (write : Reply → Reply) (r s : Bytes)
    → write r ≡ r ++ s
    → measured write (some r) ≡ (length s, some (r ++ s))
measured-some write r s e = rw e (ground (arith, length-append r s))

push_empty :
    (str header : Bytes)
    → (if ltb 0 (length str) then push_data str header else header) ≡ header ++ str
push_empty [] header = sym (append-nil header)
push_empty (c ∷ s) header = ground arith

write_bulk_lem : (s : Bytes) (r : Reply) → write_bulk s r ≡ r ++ bulk s
unfolding write_bulk
write_bulk_lem s r = rw push_empty (simp append_assoc)

write_int_lem : (z : ℤ) (r : Reply) → write_int z r ≡ r ++ integer z
unfolding write_int
write_int_lem z r = simp append_assoc

write_header_lem : (n : ℕ) (r : Reply) → write_header n r ≡ r ++ array_header n
unfolding write_header
write_header_lem n r = simp append_assoc

pub format_bulk_lem :
    (s : Bytes) (r : Reply) → format_bulk s (some r) ≡ (length (bulk s), some (r ++ bulk s))
unfolding format_bulk
format_bulk_lem s r = measured-some (write_bulk s) r (bulk s) (write_bulk_lem s r)

pub format_int_lem :
    (z : ℤ) (r : Reply) → format_int z (some r) ≡ (length (integer z), some (r ++ integer z))
unfolding format_int
format_int_lem z r = measured-some (write_int z) r (integer z) (write_int_lem z r)

pub format_null_lem :
    (r : Reply)
    → format_null (some r) ≡ (length (codes "$-1" ++ crlf), some (r ++ (codes "$-1" ++ crlf)))
unfolding format_null
format_null_lem r = measured-some (push_data (codes "$-1" ++ crlf)) r (codes "$-1" ++ crlf) refl

pub pre_format_multi_bulk_lem :
    (n : ℕ) (r : Reply)
    → pre_format_multi_bulk n (some r) ≡ (length (array_header n), some (r ++ array_header n))
unfolding pre_format_multi_bulk
pre_format_multi_bulk_lem n r =
    measured-some (write_header n) r (array_header n) (write_header_lem n r)
