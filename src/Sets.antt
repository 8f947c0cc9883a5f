-- ===== src/Sets.antt =====
-- src/YSet.cpp and `randomHashMember` of src/YedisStore.h: SADD, SCARD, SMEMBERS and SPOP.
-- A `std::unordered_set` is the list of its members. The order in which the library iterates over
-- them, and its buckets, are the parameter `HashTable`; `random()` is a list of its results.
pub mod Laws
pub mod Random
pub mod Typed
mod Tests
use mathlib.Core.List.{Perm, flatten}
use yedis.Prelude.{
  ℕ, zero, suc, ◌+◌, ◌-◌, ◌%◌, ◌≡◌, refl, Bool, true, false, Option, none, some, List, [], ◌∷◌,
  ◌++◌, Bytes, codes, crlf, length, get_elem?, drop, if◌then◌else◌, ◌==◌, bytes_eq, ◌||◌,
}
use yedis.Prelude.Int.{pos}
use yedis.Outcome.{Outcome, done, fault, out_of_fuel, ◌>>=◌ as bind}
use yedis.Format.{format_bulk, format_int, format_null, pre_format_multi_bulk}
use yedis.Object.{YType, YError, Value, YObject, create_set}
use yedis.Store
use yedis.Store.{Lookup}
use yedis.Exec.{
  Exec, Handler, Env, ◌>>=◌, ◌>>◌, pure, return, crash, push, format, query, update, change, param,
}

pub record HashTable : Type 0 where
  pub order : List Bytes → List Bytes
  pub order_perm : (l : List Bytes) → Perm (order l) l
  pub buckets : List Bytes → List (List Bytes)
  pub buckets_perm : (l : List Bytes) → Perm (flatten (buckets l)) l

unfoldable pub contains : Bytes → List Bytes → Bool
contains s [] = false
contains s (t ∷ l) = bytes_eq t s || contains s l

-- `set->erase(s)`
unfoldable pub erase_member : Bytes → List Bytes → List Bytes
erase_member s [] = []
erase_member s (t ∷ l) = if bytes_eq t s then l else t ∷ erase_member s l

-- `it = container.begin(bucket)`, then `++ it` while `lucky > 0`; a bucket that has no such
-- member is a fault.
abbrev pub member_at : List Bytes → ℕ → Outcome Bytes
member_at [] i = fault
member_at (s ∷ l) zero = done s
member_at (s ∷ l) (suc i) = member_at l i

-- `random() % bucket_size(bucket)`, in a bucket that is not empty.
abbrev pub pick_in : List Bytes → List ℕ → Outcome Bytes
pick_in bucket [] = out_of_fuel
pick_in bucket (r ∷ rs) = member_at bucket (r % length bucket)

abbrev pub bucket_at : List (List Bytes) → ℕ → List Bytes
bucket_at [] i = []
bucket_at (b ∷ bs) zero = b
bucket_at (b ∷ bs) (suc i) = bucket_at bs i

abbrev pub choose : List Bytes → List ℕ → Outcome Bytes → Outcome Bytes
choose [] rs again = again
choose (s ∷ b) rs again = pick_in (s ∷ b) rs

-- The loop that looks for a bucket that is not empty.
unfoldable pub random_bucket : List (List Bytes) → List ℕ → Outcome Bytes
random_bucket bs [] = out_of_fuel
random_bucket bs (r ∷ rs) =
    let again = random_bucket bs rs in choose (bucket_at bs (r % length bs)) rs again

-- The error reply, without a line break.
abbrev pub error_type : Bytes
error_type = codes "-ERR error type"

abbrev pub set_of : Value → Exec (List Bytes)
set_of (Value.set l) = pure l
set_of _ = crash

-- A null pointer is `none`.
abbrev pub set_found : Lookup → Exec (Option YObject)
set_found (Lookup.ok o) = pure (some o)
set_found Lookup.wrong_type = do push error_type; pure none
set_found Lookup.not_exist = do format format_null; pure none

unfoldable pub get_set : Bytes → Exec (Option YObject)
get_set name = do l ← query (Store.get_value_by_type name YType.set true); set_found l

abbrev pub set_made : Bytes → Lookup → Exec (Option YObject)
set_made name (Lookup.ok o) = pure (some o)
set_made name Lookup.wrong_type = do push error_type; pure none
set_made name Lookup.not_exist = do
  update (Store.set_value name create_set)
  query (Store.get_object name)

unfoldable pub create_or_get_set : Bytes → Exec (Option YObject)
create_or_get_set name = do l ← query (Store.get_value_by_type name YType.set true); set_made name l

-- The loop of SADD: the set, and how many members are new.
unfoldable pub insert_all : List Bytes → List Bytes → ℕ → List Bytes × ℕ
insert_all [] l n = (l, n)
insert_all (s ∷ values) l n =
    insert_all values (if contains s l then l else l ++ s ∷ []) (if contains s l then n else n + 1)

abbrev pub put_set : Bytes → YObject → List Bytes → Exec (Unit {0})
put_set name o l = update (Store.update_object name (record o { value = Value.set l }))

abbrev pub sadd_found : Bytes → List Bytes → Option YObject → Exec (Option YError)
sadd_found name values none = do push error_type; return YError.type
sadd_found name values (some o) = do
  old ← set_of o.value
  let r = insert_all values old 0
  put_set name o r.0
  format (format_int (pos r.1))
  return YError.ok

unfoldable pub sadd : Handler
unfolding create_or_get_set
sadd params = do
  name ← param 1 params
  o ← create_or_get_set name
  sadd_found name (drop 2 params) o

abbrev pub scard_found : Option YObject → Exec (Option YError)
scard_found none = do push error_type; return YError.type
scard_found (some o) = do l ← set_of o.value; format (format_int (pos (length l))); return YError.ok

unfoldable pub scard : Handler
unfolding get_set
scard params = do name ← param 1 params; o ← get_set name; scard_found o

unfoldable pub send_members : List Bytes → Exec (Unit {0})
send_members [] = pure tt
send_members (s ∷ l) = do format (format_bulk s); send_members l

-- `if (set->empty()) YSTORE.deleteKey(params[1])`
abbrev pub delete_if_empty : Bytes → List Bytes → Exec (Unit {0})
delete_if_empty name [] = do _ ← change (Store.delete_key name); pure tt
delete_if_empty name (s ∷ l) = pure tt

abbrev pub lift : {A : Type 0} → Outcome A → Exec A
lift (done a) e = done (a, e)
lift fault e = fault
lift out_of_fuel e = out_of_fuel

module _ (table : HashTable) where
  abbrev pub smember_found : Option YObject → Exec (Option YError)
  smember_found none = do push error_type; return YError.type
  smember_found (some o) = do
    l ← set_of o.value
    format (pre_format_multi_bulk (length l))
    send_members (table.order l)
    return YError.ok

  unfoldable pub smember : Handler
  unfolding get_set
  smember params = do name ← param 1 params; o ← get_set name; smember_found o

  -- `none` is the iterator of an empty container.
  unfoldable pub random_hash_member : List ℕ → List Bytes → Outcome (Option Bytes)
  random_hash_member rs [] = done none
  random_hash_member rs (s ∷ l) =
      bind (random_bucket (table.buckets (s ∷ l)) rs) (λ m. done (some m))

  abbrev pub spop_member : Bytes → YObject → List Bytes → Option Bytes → Exec (Option YError)
  spop_member name o l none = do format format_null; return YError.not_exist
  spop_member name o l (some s) = do
    format (format_bulk s)
    put_set name o (erase_member s l)
    delete_if_empty name (erase_member s l)
    return YError.ok

  abbrev pub spop_found : List ℕ → Bytes → Option YObject → Exec (Option YError)
  spop_found rs name none = do push error_type; return YError.type
  spop_found rs name (some o) = do
    l ← set_of o.value
    s ← lift (random_hash_member rs l)
    spop_member name o l s

  unfoldable pub spop : List ℕ → Handler
  unfolding get_set random_hash_member
  spop rs params = do name ← param 1 params; o ← get_set name; spop_found rs name o
