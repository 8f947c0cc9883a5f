-- ===== src/Lists/Typed.antt =====
-- The handlers of src/YList.cpp leave every object with the type of its value.
use yedis.Prelude.{
  ℕ, zero, suc, ◌≡◌, refl, sym, ap, Bool, true, false, Option, none, some, List, [], ◌∷◌, Bytes,
  length, drop,
}
use yedis.Prelude.Int.{ℤ, pos}
use yedis.Store
use yedis.Store.{Store, Lookup}
use yedis.Outcome.{Outcome, done, fault, out_of_fuel}
use yedis.Object.{YType, YError, Value, YObject, create_list}
use yedis.Exec.{Params, Exec, ◌>>=◌, pure, return, format, query, update, change, param}
use yedis.Format.{format_bulk, format_int, format0, pre_format_multi_bulk}
use yedis.Strtol.{string_to_long}
use yedis.Typed.{kind, IsTyped, OptionAll, LookupAll, create_list-IsTyped, with_value-IsTyped}
use yedis.Typed.Rules.{
  Keeps, Any, pure-Keeps, format-Keeps, push-return, format-return, seq-Keeps, param-then,
  then-Keeps, lookup-then, bind-Keeps, query-then, set_value-Keeps, update_object-Keeps,
  get_object-Keeps, delete_key-Keeps,
}
use yedis.Lists.Range.{adjust_index, get_range, ListRange}
use yedis.Lists.{
  ListPosition, head, tail, list_of, put_list, no_such_key, push_all, push_values, entry_made,
  push_found, push_list, lpush, rpush, lpushx, rpushx, take_one, delete_if_empty, pop_found, pop,
  reply_popped, lpop, rpop, reply_length, llen, send_range, raise_fault, send_from, send_slice,
  lrange_end, lrange_start, lrange_found, lrange,
}

list_of-then :
    {B : Type 0} (R : B → Type 0) (v : Value) (f : List Bytes → Exec B)
    → ((x : List Bytes) → v ≡ Value.list x → Keeps R (f x))
    → Keeps R (list_of v >>= f)
list_of-then R Value.null f h = λ e t. tt
list_of-then R (Value.raw s) f h = λ e t. tt
list_of-then R (Value.long z) f h = λ e t. tt
list_of-then R (Value.list l) f h = h l refl
list_of-then R (Value.set l) f h = λ e t. tt
list_of-then R (Value.hash m) f h = λ e t. tt
list_of-then R (Value.sset ss) f h = λ e t. tt

put_list-Keeps :
    (key : Bytes) (o : YObject) (l l' : List Bytes)
    → o.value ≡ Value.list l
    → IsTyped o
    → Keeps Any (put_list key o l')
put_list-Keeps key o l l' e t =
    update_object-Keeps key (record o { value = Value.list l' })
      (with_value-IsTyped o (Value.list l') (sym (ap kind e)) t)

push_values-Keeps :
    (key : Bytes) (p : ListPosition) (values : List Bytes) (o : YObject)
    → IsTyped o
    → Keeps Any (push_values key p values o)
push_values-Keeps key p values o t = list_of-then Any o.value _ (λ old e.
    seq-Keeps Any (put_list key o (push_all p values old)) _
      (put_list-Keeps key o old (push_all p values old) e t) (λ e h. (tt, h)))

made-Keeps :
    (key : Bytes) (p : ListPosition) (values : List Bytes) (found : Option YObject)
    → OptionAll IsTyped found
    → Keeps Any (entry_made found >>= push_values key p values)
made-Keeps key p values none t = λ e h. tt
made-Keeps key p values (some o) t = push_values-Keeps key p values o t

push_found-Keeps :
    (key : Bytes) (p : ListPosition) (create : Bool) (values : List Bytes) (l : Lookup)
    → LookupAll l
    → Keeps Any (push_found key p create values l)
push_found-Keeps key p create values (Lookup.ok o) t = push_values-Keeps key p values o t
push_found-Keeps key p create values Lookup.wrong_type t = push-return no_such_key YError.type
push_found-Keeps key p true values Lookup.not_exist t =
    seq-Keeps Any (update (Store.set_value key create_list)) _
      (set_value-Keeps key create_list create_list-IsTyped)
      (bind-Keeps (OptionAll IsTyped) Any (query (Store.get_object key)) _ (get_object-Keeps key)
        (made-Keeps key p values))
push_found-Keeps key p false values Lookup.not_exist t = push-return no_such_key YError.not_exist

push_list-Keeps :
    (p : ListPosition) (create : Bool) (params : Params) → Keeps Any (push_list p create params)
unfolding push_list
push_list-Keeps p create params = param-then Any 1 params _ (λ key.
    lookup-then Any key YType.list (push_found key p create (drop 2 params))
      (push_found-Keeps key p create (drop 2 params)))

pub lpush-Keeps : (params : Params) → Keeps Any (lpush params)
unfolding lpush
lpush-Keeps = push_list-Keeps head true

pub rpush-Keeps : (params : Params) → Keeps Any (rpush params)
unfolding rpush
rpush-Keeps = push_list-Keeps tail true

pub lpushx-Keeps : (params : Params) → Keeps Any (lpushx params)
unfolding lpushx
lpushx-Keeps = push_list-Keeps head false

pub rpushx-Keeps : (params : Params) → Keeps Any (rpushx params)
unfolding rpushx
rpushx-Keeps = push_list-Keeps tail false

take_one-Keeps : (p : ListPosition) (l : List Bytes) → Keeps Any (take_one p l)
take_one-Keeps p [] = λ e h. tt
take_one-Keeps head (s ∷ l) = λ e h. (tt, h)
take_one-Keeps tail (s ∷ l) = λ e h. (tt, h)

delete_if_empty-Keeps : (key : Bytes) (l : List Bytes) → Keeps Any (delete_if_empty key l)
delete_if_empty-Keeps key [] =
    then-Keeps Any (change (Store.delete_key key)) (λ _. pure tt) (delete_key-Keeps key)
      (λ _. pure-Keeps Any tt tt)
delete_if_empty-Keeps key (s ∷ l) = pure-Keeps Any tt tt

pop_found-Keeps :
    (key : Bytes) (p : ListPosition) (l : Lookup) → LookupAll l → Keeps Any (pop_found key p l)
pop_found-Keeps key p (Lookup.ok o) t = list_of-then Any o.value _ (λ l e.
    then-Keeps Any (take_one p l) _ (take_one-Keeps p l) (λ taken.
      seq-Keeps Any (put_list key o taken.1) _ (put_list-Keeps key o l taken.1 e t) (
        seq-Keeps Any (delete_if_empty key taken.1) _ (delete_if_empty-Keeps key taken.1)
          (λ e h. (tt, h)))))
pop_found-Keeps key p Lookup.wrong_type t = λ e h. (tt, h)
pop_found-Keeps key p Lookup.not_exist t = λ e h. (tt, h)

pop-Keeps : (key : Bytes) (p : ListPosition) → Keeps Any (pop key p)
unfolding pop
pop-Keeps key p = lookup-then Any key YType.list (pop_found key p) (pop_found-Keeps key p)

reply_popped-Keeps : (r : YError × Bytes) → Keeps Any (reply_popped r)
reply_popped-Keeps (YError.ok, s) = format-return (format_bulk s) YError.ok
reply_popped-Keeps (YError.nop, s) = λ e h. (tt, h)
reply_popped-Keeps (YError.type, s) = λ e h. (tt, h)
reply_popped-Keeps (YError.exist, s) = λ e h. (tt, h)
reply_popped-Keeps (YError.not_exist, s) = λ e h. (tt, h)
reply_popped-Keeps (YError.param, s) = λ e h. (tt, h)
reply_popped-Keeps (YError.unknow_cmd, s) = λ e h. (tt, h)
reply_popped-Keeps (YError.nan, s) = λ e h. (tt, h)
reply_popped-Keeps (YError.syntax, s) = λ e h. (tt, h)
reply_popped-Keeps (YError.dirty_exec, s) = λ e h. (tt, h)
reply_popped-Keeps (YError.watch, s) = λ e h. (tt, h)
reply_popped-Keeps (YError.no_multi, s) = λ e h. (tt, h)
reply_popped-Keeps (YError.invalid_db, s) = λ e h. (tt, h)
reply_popped-Keeps (YError.readonly_slave, s) = λ e h. (tt, h)
reply_popped-Keeps (YError.need_auth, s) = λ e h. (tt, h)
reply_popped-Keeps (YError.err_auth, s) = λ e h. (tt, h)
reply_popped-Keeps (YError.nomodule, s) = λ e h. (tt, h)
reply_popped-Keeps (YError.moduleinit, s) = λ e h. (tt, h)
reply_popped-Keeps (YError.moduleuninit, s) = λ e h. (tt, h)
reply_popped-Keeps (YError.modulerepeat, s) = λ e h. (tt, h)
reply_popped-Keeps (YError.busykey, s) = λ e h. (tt, h)
reply_popped-Keeps (YError.max, s) = λ e h. (tt, h)

popped-Keeps :
    (p : ListPosition) (params : Params)
    → Keeps Any (param 1 params >>= λ key. pop key p >>= reply_popped)
popped-Keeps p params =
    param-then Any 1 params _
      (λ key. then-Keeps Any (pop key p) reply_popped (pop-Keeps key p) reply_popped-Keeps)

pub lpop-Keeps : (params : Params) → Keeps Any (lpop params)
unfolding lpop
lpop-Keeps = popped-Keeps head

pub rpop-Keeps : (params : Params) → Keeps Any (rpop params)
unfolding rpop
rpop-Keeps = popped-Keeps tail

reply_length-Keeps : (l : Lookup) → Keeps Any (reply_length l)
reply_length-Keeps (Lookup.ok o) =
    list_of-then Any o.value _ (λ l e. format-return (format_int (pos (length l))) YError.ok)
reply_length-Keeps Lookup.wrong_type = λ e h. (tt, h)
reply_length-Keeps Lookup.not_exist = format-return format0 YError.not_exist

pub llen-Keeps : (params : Params) → Keeps Any (llen params)
unfolding llen
llen-Keeps params = param-then Any 1 params _ (λ key.
    query-then Any (Store.get_value_by_type key YType.list true) reply_length reply_length-Keeps)

send_range-Keeps : (n : ℕ) (l : List Bytes) → Keeps Any (send_range n l)
unfolding send_range
send_range-Keeps zero l = λ e h. (tt, h)
send_range-Keeps (suc n) [] = λ e h. tt
send_range-Keeps (suc n) (s ∷ l) =
    seq-Keeps Any (format (format_bulk s)) (send_range n l) (format-Keeps (format_bulk s))
      (send_range-Keeps n l)

send_from-Keeps : (r : ListRange) (l : List Bytes) → Keeps Any (send_from r l)
send_from-Keeps r [] = λ e h. (tt, h)
send_from-Keeps r (s ∷ l) = send_range-Keeps r.range_len (s ∷ l)

raise_fault-Keeps : (o : Outcome ListRange) → Keeps Any (raise_fault o)
raise_fault-Keeps (done r) = λ e h. (tt, h)
raise_fault-Keeps fault = λ e h. tt
raise_fault-Keeps out_of_fuel = λ e h. tt

send_slice-Keeps : (start end : ℤ) (l : List Bytes) → Keeps Any (send_slice start end l)
send_slice-Keeps start end l =
    let slice = get_range (adjust_index start end (length l)) l in
    then-Keeps Any (raise_fault slice) _ (raise_fault-Keeps slice) (λ r.
      seq-Keeps Any (format (pre_format_multi_bulk r.range_len)) _
        (format-Keeps (pre_format_multi_bulk r.range_len))
        (seq-Keeps Any (send_from r (drop r.begin_it l)) (return YError.ok)
          (send_from-Keeps r (drop r.begin_it l)) (λ e h. (tt, h))))

lrange_end-Keeps :
    (start : ℤ) (params : Params) (o : YObject) (end : Option ℤ)
    → Keeps Any (lrange_end start params o end)
lrange_end-Keeps start params o none = λ e h. (tt, h)
lrange_end-Keeps start params o (some end) =
    list_of-then Any o.value _ (λ l e. send_slice-Keeps start end l)

lrange_start-Keeps :
    (params : Params) (o : YObject) (start : Option ℤ) → Keeps Any (lrange_start params o start)
lrange_start-Keeps params o none = λ e h. (tt, h)
lrange_start-Keeps params o (some start) =
    param-then Any 3 params _ (λ text. lrange_end-Keeps start params o (string_to_long text))

lrange_found-Keeps : (params : Params) (l : Lookup) → Keeps Any (lrange_found params l)
lrange_found-Keeps params (Lookup.ok o) =
    param-then Any 2 params _ (λ text. lrange_start-Keeps params o (string_to_long text))
lrange_found-Keeps params Lookup.wrong_type = λ e h. (tt, h)
lrange_found-Keeps params Lookup.not_exist = λ e h. (tt, h)

pub lrange-Keeps : (params : Params) → Keeps Any (lrange params)
unfolding lrange
lrange-Keeps params = param-then Any 1 params _ (λ key.
    query-then Any (Store.get_value_by_type key YType.list true) (lrange_found params)
      (lrange_found-Keeps params))
