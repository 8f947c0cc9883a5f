-- ===== src/Strings/Typed.antt =====
-- The handlers of src/YString.cpp leave every object with the type of its value.
use yedis.Prelude.{Bool, true, false, ◌++◌, Bytes, codes, crlf}
use yedis.Object.{YType, YEncode, YError, Value, create_string}
use yedis.Store
use yedis.Store.{Store, Lookup}
use yedis.Exec.{Params, pure, update}
use yedis.Decimal.{print_int}
use yedis.Strings.{
  is_found, taken, write, set_value, decode, get_decode_string, set_cmd, no_such_key, reply_value,
  get_cmd, reply_setnx, setnx_cmd,
}
use yedis.Typed.{create_string-IsTyped}
use yedis.Typed.Rules.{
  Keeps, Any, pure-Keeps, push-return, param-then, then-Keeps, query-then, set_value-Keeps,
}

taken-Keeps : (key : Bytes) (exclusive : Bool) → Keeps Any (taken key exclusive)
taken-Keeps key true =
    query-then Any (Store.get_value key true) (λ l. pure (is_found l))
      (λ l. pure-Keeps Any (is_found l) tt)
taken-Keeps key false = pure-Keeps Any false tt

write-Keeps : (key value : Bytes) (t : Bool) → Keeps Any (write key value t)
write-Keeps key value true = pure-Keeps Any false tt
write-Keeps key value false =
    then-Keeps Any (update (Store.set_value key (create_string value))) (λ _. pure true)
      (set_value-Keeps key (create_string value) (create_string-IsTyped value))
      (λ _. pure-Keeps Any true tt)

set_value-Any : (key value : Bytes) (exclusive : Bool) → Keeps Any (set_value key value exclusive)
unfolding set_value
set_value-Any key value exclusive =
    then-Keeps Any (taken key exclusive) (write key value) (taken-Keeps key exclusive)
      (write-Keeps key value)

pub set_cmd-Keeps : (params : Params) → Keeps Any (set_cmd params)
unfolding set_cmd
set_cmd-Keeps params = param-then Any 1 params _ (λ key. param-then Any 2 params _ (λ value.
    then-Keeps Any (set_value key value false) _ (set_value-Any key value false)
      (λ _. push-return (codes "+OK" ++ crlf) YError.ok)))

decode-Keeps : (e : YEncode) (v : Value) → Keeps Any (decode e v)
decode-Keeps YEncode.raw Value.null = λ e h. tt
decode-Keeps YEncode.raw (Value.raw s) = pure-Keeps Any s tt
decode-Keeps YEncode.raw (Value.long z) = λ e h. tt
decode-Keeps YEncode.raw (Value.list l) = λ e h. tt
decode-Keeps YEncode.raw (Value.set l) = λ e h. tt
decode-Keeps YEncode.raw (Value.hash m) = λ e h. tt
decode-Keeps YEncode.raw (Value.sset ss) = λ e h. tt
decode-Keeps YEncode.int Value.null = λ e h. tt
decode-Keeps YEncode.int (Value.raw s) = λ e h. tt
decode-Keeps YEncode.int (Value.long z) = pure-Keeps Any (print_int z) tt
decode-Keeps YEncode.int (Value.list l) = λ e h. tt
decode-Keeps YEncode.int (Value.set l) = λ e h. tt
decode-Keeps YEncode.int (Value.hash m) = λ e h. tt
decode-Keeps YEncode.int (Value.sset ss) = λ e h. tt
decode-Keeps YEncode.invalid v = λ e h. tt
decode-Keeps YEncode.list v = λ e h. tt
decode-Keeps YEncode.set v = λ e h. tt
decode-Keeps YEncode.hash v = λ e h. tt
decode-Keeps YEncode.sset v = λ e h. tt

reply_value-Keeps : (l : Lookup) → Keeps Any (reply_value l)
unfolding get_decode_string
reply_value-Keeps (Lookup.ok o) =
    then-Keeps Any (get_decode_string o) _ (decode-Keeps o.encoding o.value) (λ s e h. (tt, h))
reply_value-Keeps Lookup.not_exist = push-return (codes "$-1" ++ crlf) YError.not_exist
reply_value-Keeps Lookup.wrong_type = push-return no_such_key YError.type

pub get_cmd-Keeps : (params : Params) → Keeps Any (get_cmd params)
unfolding get_cmd
get_cmd-Keeps params = param-then Any 1 params _ (λ key.
    query-then Any (Store.get_value_by_type key YType.string true) reply_value reply_value-Keeps)

reply_setnx-Keeps : (t : Bool) → Keeps Any (reply_setnx t)
reply_setnx-Keeps true = push-return (codes ":1" ++ crlf) YError.ok
reply_setnx-Keeps false = push-return (codes ":0" ++ crlf) YError.ok

pub setnx_cmd-Keeps : (params : Params) → Keeps Any (setnx_cmd params)
unfolding setnx_cmd
setnx_cmd-Keeps params = param-then Any 1 params _ (λ key. param-then Any 2 params _ (λ value.
    then-Keeps Any (set_value key value true) reply_setnx (set_value-Any key value true)
      reply_setnx-Keeps))
