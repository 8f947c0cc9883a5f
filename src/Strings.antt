-- ===== src/Strings.antt =====
-- src/YString.cpp: SET, GET and SETNX.
pub mod Laws
pub mod Get
mod Tests
pub mod Typed
use yedis.Prelude.{
  ℕ, ◌≡◌, refl, Bool, true, false, Option, none, some, List, [], ◌∷◌, ◌++◌, Bytes, codes, crlf,
  length, if◌then◌else◌,
}
use yedis.Prelude.Int.{ℤ}
use yedis.Decimal.{print_nat, print_int}
use yedis.Object.{YType, YEncode, YError, Value, YObject, create_string}
use yedis.Store
use yedis.Store.{Lookup}
use yedis.Exec.{Exec, Handler, Params, ◌>>=◌, ◌>>◌, pure, return, crash, push, query, update, param}

abbrev pub is_found : Lookup → Bool
is_found (Lookup.ok o) = true
is_found Lookup.wrong_type = false
is_found Lookup.not_exist = false

-- Whether `key` has a value, asked only for an exclusive write.
abbrev taken : Bytes → Bool → Exec Bool
taken key true = do l ← query (Store.get_value key true); pure (is_found l)
taken key false = pure false

abbrev write : Bytes → Bytes → Bool → Exec Bool
write key value true = pure false
write key value false = do update (Store.set_value key (create_string value)); pure true

unfoldable pub set_value : Bytes → Bytes → Bool → Exec Bool
set_value key value exclusive = do t ← taken key exclusive; write key value t

-- A raw encoding holds a text, and an int encoding a number; with another the function does not
-- return a string.
abbrev pub decode : YEncode → Value → Exec Bytes
decode YEncode.raw (Value.raw s) = pure s
decode YEncode.int (Value.long z) = pure (print_int z)
decode _ _ = crash

unfoldable pub get_decode_string : YObject → Exec Bytes
get_decode_string o = decode o.encoding o.value

unfoldable pub set_cmd : Handler
unfolding set_value
set_cmd params = do
  key ← param 1 params
  value ← param 2 params
  _ ← set_value key value false
  push (codes "+OK" ++ crlf)
  return YError.ok

abbrev pub no_such_key : Bytes
no_such_key = codes "-ERR no such key" ++ crlf

abbrev pub reply_value : Lookup → Exec (Option YError)
reply_value (Lookup.ok o) = do
  s ← get_decode_string o
  push (b'$' ∷ [])
  push (print_nat (length s) ++ crlf)
  push s
  push crlf
  return YError.ok
reply_value Lookup.not_exist = do push (codes "$-1" ++ crlf); return YError.not_exist
reply_value Lookup.wrong_type = do push no_such_key; return YError.type

unfoldable pub get_cmd : Handler
unfolding get_decode_string
get_cmd params = do
  key ← param 1 params
  l ← query (Store.get_value_by_type key YType.string true)
  reply_value l

abbrev reply_setnx : Bool → Exec (Option YError)
reply_setnx true = do push (codes ":1" ++ crlf); return YError.ok
reply_setnx false = do push (codes ":0" ++ crlf); return YError.ok

unfoldable pub setnx_cmd : Handler
unfolding set_value
setnx_cmd params = do
  key ← param 1 params
  value ← param 2 params
  t ← set_value key value true
  reply_setnx t
