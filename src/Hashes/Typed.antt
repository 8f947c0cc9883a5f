-- ===== src/Hashes/Typed.antt =====
-- The handlers of src/YHash.cpp leave every object with the type of its value.
use yedis.Prelude.{◌≡◌, refl, sym, ap, true, Option, none, some, Bytes}
use yedis.Prelude.Int.{pos}
use yedis.Prelude.Assoc.{Assoc, find, assign}
use yedis.Store
use yedis.Store.{Store, Lookup}
use yedis.Object.{YType, YError, Value, YObject, create_hash}
use yedis.Exec.{Params, Exec, ◌>>=◌, query, update}
use yedis.Format.{format_bulk, format_int, format_null}
use yedis.Typed.{kind, IsTyped, OptionAll, LookupAll, create_hash-IsTyped, with_value-IsTyped}
use yedis.Typed.Rules.{
  Keeps, Any, format-return, seq-Keeps, param-then, then-Keeps, lookup-then, bind-Keeps, query-then,
  set_value-Keeps, update_object-Keeps, get_object-Keeps,
}
use yedis.Hashes.{
  hash_of, hash_found, get_hash, hash_made, get_or_create_hash, hset_found, hset, reply_field,
  hget_found, hget,
}

hash_of-then :
    {B : Type 0} (R : B → Type 0) (v : Value) (f : Assoc Bytes → Exec B)
    → ((x : Assoc Bytes) → v ≡ Value.hash x → Keeps R (f x))
    → Keeps R (hash_of v >>= f)
hash_of-then R Value.null f h = λ e t. tt
hash_of-then R (Value.raw s) f h = λ e t. tt
hash_of-then R (Value.long z) f h = λ e t. tt
hash_of-then R (Value.list l) f h = λ e t. tt
hash_of-then R (Value.set l) f h = λ e t. tt
hash_of-then R (Value.hash m) f h = h m refl
hash_of-then R (Value.sset ss) f h = λ e t. tt

hash_made-Keeps :
    (name : Bytes) (l : Lookup) → LookupAll l → Keeps (OptionAll IsTyped) (hash_made name l)
hash_made-Keeps name (Lookup.ok o) t = λ e h. (t, h)
hash_made-Keeps name Lookup.wrong_type t = λ e h. (tt, h)
hash_made-Keeps name Lookup.not_exist t =
    seq-Keeps (OptionAll IsTyped) (update (Store.set_value name create_hash))
      (query (Store.get_object name)) (set_value-Keeps name create_hash create_hash-IsTyped)
      (get_object-Keeps name)

get_or_create_hash-Keeps : (name : Bytes) → Keeps (OptionAll IsTyped) (get_or_create_hash name)
unfolding get_or_create_hash
get_or_create_hash-Keeps name =
    lookup-then (OptionAll IsTyped) name YType.hash (hash_made name) (hash_made-Keeps name)

hset_found-Keeps :
    (name : Bytes) (params : Params) (o : Option YObject)
    → OptionAll IsTyped o
    → Keeps Any (hset_found name params o)
hset_found-Keeps name params none t = λ e h. (tt, h)
hset_found-Keeps name params (some o) t = hash_of-then Any o.value _ (λ m e.
    param-then Any 2 params _ (λ key. param-then Any 3 params _ (λ val.
      let o' : YObject = record o { value = Value.hash (assign key val m) } in
      seq-Keeps Any (update (Store.update_object name o')) _
        (update_object-Keeps name o'
          (with_value-IsTyped o (Value.hash (assign key val m)) (sym (ap kind e)) t))
        (format-return (format_int (pos 1)) YError.ok))))

pub hset-Keeps : (params : Params) → Keeps Any (hset params)
unfolding hset
hset-Keeps params = param-then Any 1 params _ (λ name.
    bind-Keeps (OptionAll IsTyped) Any (get_or_create_hash name) (hset_found name params)
      (get_or_create_hash-Keeps name) (hset_found-Keeps name params))

hash_found-Keeps : (l : Lookup) → Keeps Any (hash_found l)
hash_found-Keeps (Lookup.ok o) = λ e h. (tt, h)
hash_found-Keeps Lookup.wrong_type = λ e h. (tt, h)
hash_found-Keeps Lookup.not_exist = λ e h. (tt, h)

get_hash-Keeps : (name : Bytes) → Keeps Any (get_hash name)
unfolding get_hash
get_hash-Keeps name =
    query-then Any (Store.get_value_by_type name YType.hash true) hash_found hash_found-Keeps

reply_field-Keeps : (v : Option Bytes) → Keeps Any (reply_field v)
reply_field-Keeps none = format-return format_null YError.ok
reply_field-Keeps (some v) = format-return (format_bulk v) YError.ok

hget_found-Keeps : (params : Params) (o : Option YObject) → Keeps Any (hget_found params o)
hget_found-Keeps params none = λ e h. (tt, h)
hget_found-Keeps params (some o) =
    hash_of-then Any o.value _
      (λ m e. param-then Any 2 params _ (λ key. reply_field-Keeps (find key m)))

pub hget-Keeps : (params : Params) → Keeps Any (hget params)
unfolding hget
hget-Keeps params = param-then Any 1 params _ (λ name.
    then-Keeps Any (get_hash name) (hget_found params) (get_hash-Keeps name)
      (hget_found-Keeps params))
