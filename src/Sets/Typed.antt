-- ===== src/Sets/Typed.antt =====
-- The handlers of src/YSet.cpp leave every object with the type of its value.
use yedis.Prelude.{ℕ, ◌≡◌, refl, sym, ap, Option, none, some, List, [], ◌∷◌, Bytes, length, drop}
use yedis.Prelude.Int.{pos}
use yedis.Store
use yedis.Store.{Store, Lookup}
use yedis.Outcome.{Outcome, done, fault, out_of_fuel}
use yedis.Object.{YType, YError, Value, YObject, create_set}
use yedis.Exec.{Params, Exec, ◌>>=◌, pure, return, format, query, update, change, param}
use yedis.Format.{format_bulk, format_int, format_null, pre_format_multi_bulk}
use yedis.Typed.{kind, IsTyped, OptionAll, LookupAll, create_set-IsTyped, with_value-IsTyped}
use yedis.Typed.Rules.{
  Keeps, Any, format-Keeps, format-return, seq-Keeps, param-then, then-Keeps, lookup-then,
  bind-Keeps, set_value-Keeps, update_object-Keeps, get_object-Keeps, delete_key-Keeps,
}
use yedis.Sets.{
  HashTable, set_of, set_found, get_set, set_made, create_or_get_set, insert_all, put_set,
  sadd_found, sadd, scard_found, scard, send_members, delete_if_empty, lift, smember_found, smember,
  random_hash_member, erase_member, spop_member, spop_found, spop,
}

set_of-then :
    {B : Type 0} (R : B → Type 0) (v : Value) (f : List Bytes → Exec B)
    → ((x : List Bytes) → v ≡ Value.set x → Keeps R (f x))
    → Keeps R (set_of v >>= f)
set_of-then R Value.null f h = λ e t. tt
set_of-then R (Value.raw s) f h = λ e t. tt
set_of-then R (Value.long z) f h = λ e t. tt
set_of-then R (Value.list l) f h = λ e t. tt
set_of-then R (Value.set l) f h = h l refl
set_of-then R (Value.hash m) f h = λ e t. tt
set_of-then R (Value.sset ss) f h = λ e t. tt

put_set-Keeps :
    (name : Bytes) (o : YObject) (l l' : List Bytes)
    → o.value ≡ Value.set l
    → IsTyped o
    → Keeps Any (put_set name o l')
put_set-Keeps name o l l' e t =
    update_object-Keeps name (record o { value = Value.set l' })
      (with_value-IsTyped o (Value.set l') (sym (ap kind e)) t)

set_made-Keeps :
    (name : Bytes) (l : Lookup) → LookupAll l → Keeps (OptionAll IsTyped) (set_made name l)
set_made-Keeps name (Lookup.ok o) t = λ e h. (t, h)
set_made-Keeps name Lookup.wrong_type t = λ e h. (tt, h)
set_made-Keeps name Lookup.not_exist t =
    seq-Keeps (OptionAll IsTyped) (update (Store.set_value name create_set))
      (query (Store.get_object name)) (set_value-Keeps name create_set create_set-IsTyped)
      (get_object-Keeps name)

create_or_get_set-Keeps : (name : Bytes) → Keeps (OptionAll IsTyped) (create_or_get_set name)
unfolding create_or_get_set
create_or_get_set-Keeps name =
    lookup-then (OptionAll IsTyped) name YType.set (set_made name) (set_made-Keeps name)

sadd_found-Keeps :
    (name : Bytes) (values : List Bytes) (o : Option YObject)
    → OptionAll IsTyped o
    → Keeps Any (sadd_found name values o)
sadd_found-Keeps name values none t = λ e h. (tt, h)
sadd_found-Keeps name values (some o) t = set_of-then Any o.value _ (λ old e.
    let r = insert_all values old 0 in
    seq-Keeps Any (put_set name o r.0) _ (put_set-Keeps name o old r.0 e t)
      (format-return (format_int (pos r.1)) YError.ok))

pub sadd-Keeps : (params : Params) → Keeps Any (sadd params)
unfolding sadd
sadd-Keeps params = param-then Any 1 params _ (λ name.
    bind-Keeps (OptionAll IsTyped) Any (create_or_get_set name) (sadd_found name (drop 2 params))
      (create_or_get_set-Keeps name) (sadd_found-Keeps name (drop 2 params)))

set_found-Keeps : (l : Lookup) → LookupAll l → Keeps (OptionAll IsTyped) (set_found l)
set_found-Keeps (Lookup.ok o) t = λ e h. (t, h)
set_found-Keeps Lookup.wrong_type t = λ e h. (tt, h)
set_found-Keeps Lookup.not_exist t =
    seq-Keeps (OptionAll IsTyped) (format format_null) (pure none) (format-Keeps format_null)
      (λ e h. (tt, h))

get_set-Keeps : (name : Bytes) → Keeps (OptionAll IsTyped) (get_set name)
unfolding get_set
get_set-Keeps name = lookup-then (OptionAll IsTyped) name YType.set set_found set_found-Keeps

-- The set that is there, and what follows.
get_set-then :
    (params : Params) (f : Bytes → Option YObject → Exec (Option YError))
    → ((name : Bytes) (o : Option YObject) → OptionAll IsTyped o → Keeps Any (f name o))
    → Keeps Any (param 1 params >>= λ name. get_set name >>= f name)
get_set-then params f h = param-then Any 1 params _ (λ name.
    bind-Keeps (OptionAll IsTyped) Any (get_set name) (f name) (get_set-Keeps name) (h name))

scard_found-Keeps : (o : Option YObject) → Keeps Any (scard_found o)
scard_found-Keeps none = λ e h. (tt, h)
scard_found-Keeps (some o) =
    set_of-then Any o.value _ (λ l e. format-return (format_int (pos (length l))) YError.ok)

pub scard-Keeps : (params : Params) → Keeps Any (scard params)
unfolding scard
scard-Keeps params = get_set-then params (λ name. scard_found) (λ name o t. scard_found-Keeps o)

send_members-Keeps : (l : List Bytes) → Keeps Any (send_members l)
unfolding send_members
send_members-Keeps [] = λ e h. (tt, h)
send_members-Keeps (s ∷ l) =
    seq-Keeps Any (format (format_bulk s)) (send_members l) (format-Keeps (format_bulk s))
      (send_members-Keeps l)

delete_if_empty-Keeps : (key : Bytes) (l : List Bytes) → Keeps Any (delete_if_empty key l)
delete_if_empty-Keeps key [] =
    then-Keeps Any (change (Store.delete_key key)) (λ _. pure tt) (delete_key-Keeps key)
      (λ _ e h. (tt, h))
delete_if_empty-Keeps key (s ∷ l) = λ e h. (tt, h)

lift-Keeps : (o : Outcome (Option Bytes)) → Keeps Any (lift o)
lift-Keeps (done a) = λ e h. (tt, h)
lift-Keeps fault = λ e h. tt
lift-Keeps out_of_fuel = λ e h. tt

module _ (table : HashTable) where
  smember_found-Keeps : (o : Option YObject) → Keeps Any (smember_found table o)
  smember_found-Keeps none = λ e h. (tt, h)
  smember_found-Keeps (some o) = set_of-then Any o.value _ (λ l e.
      seq-Keeps Any (format (pre_format_multi_bulk (length l))) _
        (format-Keeps (pre_format_multi_bulk (length l)))
        (seq-Keeps Any (send_members (table.order l)) (return YError.ok)
          (send_members-Keeps (table.order l)) (λ e h. (tt, h))))

  pub smember-Keeps : (params : Params) → Keeps Any (smember table params)
  unfolding smember
  smember-Keeps params =
      get_set-then params (λ name. smember_found table) (λ name o t. smember_found-Keeps o)

  spop_member-Keeps :
      (name : Bytes) (o : YObject) (l : List Bytes) (s : Option Bytes)
      → o.value ≡ Value.set l
      → IsTyped o
      → Keeps Any (spop_member table name o l s)
  spop_member-Keeps name o l none e t = format-return format_null YError.not_exist
  spop_member-Keeps name o l (some s) e t =
      seq-Keeps Any (format (format_bulk s)) _ (format-Keeps (format_bulk s)) (
        seq-Keeps Any (put_set name o (erase_member s l)) _
          (put_set-Keeps name o l (erase_member s l) e t)
          (seq-Keeps Any (delete_if_empty name (erase_member s l)) (return YError.ok)
            (delete_if_empty-Keeps name (erase_member s l)) (λ e h. (tt, h))))

  spop_found-Keeps :
      (rs : List ℕ) (name : Bytes) (o : Option YObject)
      → OptionAll IsTyped o
      → Keeps Any (spop_found table rs name o)
  spop_found-Keeps rs name none t = λ e h. (tt, h)
  spop_found-Keeps rs name (some o) t = set_of-then Any o.value _ (λ l e.
      then-Keeps Any (lift (random_hash_member table rs l)) (spop_member table name o l)
        (lift-Keeps (random_hash_member table rs l)) (λ s. spop_member-Keeps name o l s e t))

  pub spop-Keeps : (rs : List ℕ) (params : Params) → Keeps Any (spop table rs params)
  unfolding spop
  spop-Keeps rs params = get_set-then params (spop_found table rs) (spop_found-Keeps rs)
