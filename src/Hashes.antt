-- ===== src/Hashes.antt =====
-- src/YHash.cpp: HSET and HGET.
pub mod Laws
pub mod Typed
mod Tests
use yedis.Prelude.{
  ℕ, ◌≡◌, refl, Bool, true, false, Option, none, some, List, [], ◌∷◌, ◌++◌, Bytes, codes, crlf,
  length,
}
use yedis.Prelude.Int.{pos}
use yedis.Prelude.Assoc.{Assoc, find, assign}
use yedis.Format.{format_bulk, format_int, format_null}
use yedis.Object.{YType, YError, Value, YObject, create_hash}
use yedis.Store
use yedis.Store.{Lookup}
use yedis.Exec.{Exec, Handler, ◌>>=◌, ◌>>◌, pure, return, crash, push, format, query, update, param}

-- `sizeof("-ERR error type") - 1` bytes: without a line break.
abbrev pub error_type : Bytes
error_type = codes "-ERR error type"

-- `value->castHash()`
abbrev pub hash_of : Value → Exec (Assoc Bytes)
hash_of (Value.hash m) = pure m
hash_of _ = crash

-- A null pointer is `none`.
abbrev pub hash_found : Lookup → Exec (Option YObject)
hash_found (Lookup.ok o) = pure (some o)
hash_found Lookup.wrong_type = do push error_type; pure none
hash_found Lookup.not_exist = do push error_type; pure none

unfoldable pub get_hash : Bytes → Exec (Option YObject)
get_hash name = do l ← query (Store.get_value_by_type name YType.hash true); hash_found l

abbrev pub hash_made : Bytes → Lookup → Exec (Option YObject)
hash_made name (Lookup.ok o) = pure (some o)
hash_made name Lookup.wrong_type = do push error_type; pure none
hash_made name Lookup.not_exist = do
  update (Store.set_value name create_hash)
  query (Store.get_object name)

unfoldable pub get_or_create_hash : Bytes → Exec (Option YObject)
get_or_create_hash name = do
  l ← query (Store.get_value_by_type name YType.hash true)
  hash_made name l

-- An entry that is there gets the value, and otherwise a new entry: the table is assigned at the key.
abbrev pub hset_found : Bytes → List Bytes → Option YObject → Exec (Option YError)
hset_found name params none = return YError.type
hset_found name params (some o) = do
  m ← hash_of o.value
  key ← param 2 params
  val ← param 3 params
  update (Store.update_object name (record o { value = Value.hash (assign key val m) }))
  format (format_int (pos 1))
  return YError.ok

unfoldable pub hset : Handler
unfolding get_or_create_hash
hset params = do name ← param 1 params; o ← get_or_create_hash name; hset_found name params o

abbrev pub reply_field : Option Bytes → Exec (Option YError)
reply_field none = do format format_null; return YError.ok
reply_field (some v) = do format (format_bulk v); return YError.ok

abbrev pub hget_found : List Bytes → Option YObject → Exec (Option YError)
hget_found params none = return YError.type
hget_found params (some o) = do m ← hash_of o.value; key ← param 2 params; reply_field (find key m)

unfoldable pub hget : Handler
unfolding get_hash
hget params = do name ← param 1 params; o ← get_hash name; hget_found params o
