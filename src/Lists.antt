-- ===== src/Lists.antt =====
-- src/YList.h and src/YList.cpp: LPUSH, RPUSH, LPUSHX, RPUSHX, LPOP, RPOP, LLEN and LRANGE.
-- A list object is written back under its key where the source changes it through the pointer.
pub mod Range
pub mod Reply
pub mod Push
pub mod Pop
pub mod Typed
mod Tests
use yedis.Prelude.{
  ℕ, zero, suc, ◌+◌, ◌-◌, ◌≡◌, refl, Bool, true, false, Option, none, some, List, [], ◌∷◌, ◌++◌,
  Bytes, codes, crlf, length, drop, if◌then◌else◌, reverse,
}
use yedis.Prelude.Int.{ℤ, pos, negsuc}
use yedis.Decimal.{print_int}
use yedis.Strtol.{string_to_long}
use yedis.Format.{format_bulk, format_int, format0, pre_format_multi_bulk}
use yedis.Outcome.{Outcome, done, fault}
use yedis.Object.{YType, YError, Value, YObject, create_list}
use yedis.Store
use yedis.Store.{Lookup, error_of}
use yedis.Exec.{
  Exec, Handler, Params, Env, ◌>>=◌, ◌>>◌, pure, return, crash, push, format, query, update, change,
  param,
}
use yedis.Lists.Range.{adjust_index, get_range, ListRange}

pub data ListPosition : Type 0 where
  head tail : ListPosition

-- `value->castList()`: another value read as a list is a fault.
abbrev pub list_of : Value → Exec (List Bytes)
list_of (Value.list l) = pure l
list_of _ = crash

-- The list is changed in place, through the pointer to the object.
abbrev pub put_list : Bytes → YObject → List Bytes → Exec (Unit {0})
put_list key o l = update (Store.update_object key (record o { value = Value.list l }))

abbrev pub no_such_key : Bytes
no_such_key = codes "-ERR no such key" ++ crlf

abbrev pub push_one : ListPosition → Bytes → List Bytes → List Bytes
push_one head s l = s ∷ l
push_one tail s l = l ++ s ∷ []

-- The loop over `params[2]` and those behind it.
unfoldable pub push_all : ListPosition → List Bytes → List Bytes → List Bytes
push_all p [] l = l
push_all p (s ∷ rest) l = push_all p rest (push_one p s l)

-- The end of `push`, which has no `return`.
abbrev pub push_values : Bytes → ListPosition → List Bytes → YObject → Exec (Option YError)
push_values key p values o = do
  old ← list_of o.value
  let l = push_all p values old
  put_list key o l
  push (b':' ∷ [])
  push (print_int (pos (length l)) ++ crlf)
  pure none

abbrev pub entry_made : Option YObject → Exec YObject
entry_made none = crash
entry_made (some o) = pure o

abbrev pub push_found : Bytes → ListPosition → Bool → List Bytes → Lookup → Exec (Option YError)
push_found key p create values (Lookup.ok o) = push_values key p values o
push_found key p create values Lookup.wrong_type = do push no_such_key; return YError.type
push_found key p true values Lookup.not_exist = do
  update (Store.set_value key create_list)
  found ← query (Store.get_object key)
  o ← entry_made found
  push_values key p values o
push_found key p false values Lookup.not_exist = do push no_such_key; return YError.not_exist

unfoldable pub push_list : ListPosition → Bool → Handler
push_list p create params = do
  key ← param 1 params
  l ← query (Store.get_value_by_type key YType.list true)
  push_found key p create (drop 2 params) l

unfoldable pub lpush : Handler
unfolding push_list
lpush = push_list head true

unfoldable pub rpush : Handler
unfolding push_list
rpush = push_list tail true

unfoldable pub lpushx : Handler
unfolding push_list
lpushx = push_list head false

unfoldable pub rpushx : Handler
unfolding push_list
rpushx = push_list tail false

-- The element that is taken, and the rest; `assert(!list->empty())`.
abbrev pub take_back : Bytes → List Bytes → Bytes × List Bytes
take_back s [] = (s, [])
take_back s (t ∷ l) = let (r, rest) = take_back t l in (r, s ∷ rest)

abbrev pub take_one : ListPosition → List Bytes → Exec (Bytes × List Bytes)
take_one p [] = crash
take_one head (s ∷ l) = pure (s, l)
take_one tail (s ∷ l) = pure (take_back s l)

-- `if (list->empty()) YSTORE.deleteKey(key)`
abbrev pub delete_if_empty : Bytes → List Bytes → Exec (Unit {0})
delete_if_empty key [] = (do _ ← change (Store.delete_key key); pure tt)
delete_if_empty key (s ∷ l) = pure tt

-- The error, and the element with `ok`.
abbrev pub pop_found : Bytes → ListPosition → Lookup → Exec (YError × Bytes)
pop_found key p (Lookup.ok o) = do
  l ← list_of o.value
  taken ← take_one p l
  put_list key o taken.1
  delete_if_empty key taken.1
  pure (YError.ok, taken.0)
pop_found key p Lookup.wrong_type = pure (YError.type, [])
pop_found key p Lookup.not_exist = pure (YError.not_exist, [])

unfoldable pub pop : Bytes → ListPosition → Exec (YError × Bytes)
pop key p = do l ← query (Store.get_value_by_type key YType.list true); pop_found key p l

abbrev pub reply_popped : YError × Bytes → Exec (Option YError)
reply_popped (YError.ok, s) = do format (format_bulk s); return YError.ok
reply_popped (err, s) = return err

unfoldable pub lpop : Handler
unfolding pop
lpop params = do key ← param 1 params; r ← pop key head; reply_popped r

unfoldable pub rpop : Handler
unfolding pop
rpop params = do key ← param 1 params; r ← pop key tail; reply_popped r

abbrev pub reply_length : Lookup → Exec (Option YError)
reply_length (Lookup.ok o) = do
  l ← list_of o.value
  format (format_int (pos (length l)))
  return YError.ok
reply_length Lookup.wrong_type = do push (codes "-ERR Unknown command" ++ crlf); return YError.type
reply_length Lookup.not_exist = do format format0; return YError.not_exist

unfoldable pub llen : Handler
llen params = do
  key ← param 1 params
  l ← query (Store.get_value_by_type key YType.list true)
  reply_length l

-- The loop that sends `rangeLen` elements from an iterator on; a read at the end is a fault.
unfoldable pub send_range : ℕ → List Bytes → Exec (Unit {0})
send_range zero l = pure tt
send_range (suc n) [] = crash
send_range (suc n) (s ∷ l) = do format (format_bulk s); send_range n l

abbrev pub raise_fault {ℓ} : {A : Type ℓ} → Outcome A → Env → Outcome (A × Env)
raise_fault (done a) e = done (a, e)
raise_fault fault e = fault
raise_fault Outcome.out_of_fuel e = Outcome.out_of_fuel

-- Nothing is sent from an iterator at the end of the list.
abbrev pub send_from : ListRange → List Bytes → Exec (Unit {0})
send_from r [] = pure tt
send_from r (s ∷ l) = send_range r.range_len (s ∷ l)

abbrev pub send_slice : ℤ → ℤ → List Bytes → Exec (Option YError)
send_slice start end l = do
  r ← raise_fault (get_range (adjust_index start end (length l)) l)
  format (pre_format_multi_bulk r.range_len)
  send_from r (drop r.begin_it l)
  return YError.ok

-- An index that is not a number ends the command with `ok` and no reply; the second is looked at
-- only if the first is a number.
abbrev pub lrange_end : ℤ → Params → YObject → Option ℤ → Exec (Option YError)
lrange_end start params o none = return YError.ok
lrange_end start params o (some end) = do l ← list_of o.value; send_slice start end l

abbrev pub lrange_start : Params → YObject → Option ℤ → Exec (Option YError)
lrange_start params o none = return YError.ok
lrange_start params o (some start) = do
  text ← param 3 params
  lrange_end start params o (string_to_long text)

abbrev pub lrange_found : Params → Lookup → Exec (Option YError)
lrange_found params (Lookup.ok o) = do
  text ← param 2 params
  lrange_start params o (string_to_long text)
lrange_found params Lookup.wrong_type = return YError.type
lrange_found params Lookup.not_exist = return YError.not_exist

unfoldable pub lrange : Handler
lrange params = do
  key ← param 1 params
  l ← query (Store.get_value_by_type key YType.list true)
  lrange_found params l
