-- ===== src/Store.antt =====
-- src/YedisStore.h and src/YedisStore.cpp: the numbered key spaces and the selected one.
-- An object is referred to by its key: a pointer that a call returns leads to the entry of that
-- key. A `fault` is an access to a key space that is not there.
pub mod Laws
use yedis.Prelude.{
  ℕ, zero, suc, ◌+◌, ◌-◌, ◌%◌, ◌^◌, ◌<◌, ◌≡◌, refl, Bool, true, false, Option, none, some, List, [],
  ◌∷◌, ◌++◌, Bytes, length, get_elem?, set, take, replicate, ltb, leb, ◌==◌, if◌then◌else◌, ◌&&◌,
  not, arith,
}
use yedis.Prelude.Int.{ℤ, pos, negsuc, ltb_ℤ}
use yedis.Prelude.Assoc.{Assoc, find, assign, erase}
use yedis.Outcome.{Outcome, done, fault, ◌>>=◌}
use yedis.Object.{YType, YError, YObject, new_object, move_from}

abbrev pub Db : Type 0
Db = Assoc YObject

-- `lruclock` is the static of `YObject`, read once when the program starts.
pub record Store : Type 0 where
  pub dbs : List Db
  pub dbno : ℕ
  pub lruclock : ℕ

abbrev pub max_db_num : ℕ
max_db_num = 65536

abbrev pub clamp_db_num : ℤ → ℕ
clamp_db_num (negsuc n) = 1
clamp_db_num (pos n) = if ltb n 1 then 1 else if ltb max_db_num n then max_db_num else n

-- `m_vecStore.resize(dbNum)`
unfoldable pub init : ℤ → Store → Store
init db_num s =
    let n = clamp_db_num db_num in
    record s { dbs = take n s.dbs ++ replicate (n - length s.dbs) [] }

-- The number that was selected before, or -1.
unfoldable pub select_db : ℤ → Store → ℤ × Store
select_db (negsuc n) s = (negsuc 0, s)
select_db (pos n) s =
    if n == s.dbno
    then (pos s.dbno, s)
    else if ltb n (length s.dbs)
    then (pos s.dbno, record s { dbno = n })
    else (negsuc 0, s)

unfoldable pub get_db : Store → ℤ
get_db s = pos s.dbno

-- `&m_vecStore[m_nDbno]`
abbrev pub in_range : Option Db → Outcome Db
in_range none = fault
in_range (some db) = done db

abbrev pub current : Store → Outcome Db
current s = in_range (get_elem? s.dbs s.dbno)

abbrev pub put_current : Db → Store → Store
put_current db s = record s { dbs = set s.dbs s.dbno db }

unfoldable pub get_object : Bytes → Store → Outcome (Option YObject)
get_object key s = do db ← current s; done (find key db)

abbrev pub is_some {ℓ} : {A : Type ℓ} → Option A → Bool
is_some none = false
is_some (some a) = true

unfoldable pub delete_key : Bytes → Store → Outcome (Bool × Store)
delete_key key s = do db ← current s; done (is_some (find key db), put_current (erase key db) s)

unfoldable pub exists_key : Bytes → Store → Outcome Bool
unfolding get_object
exists_key key s = do o ← get_object key s; done (is_some o)

unfoldable pub get_key_type : Bytes → Store → Outcome YType
unfolding get_object
get_key_type key s = do
  o ← get_object key s
  done (elim o [ none ↦ YType.invalid | some x ↦ x.type ])

unfoldable pub db_size : Store → Outcome ℕ
db_size s = do db ← current s; done (length db)

abbrev pub type_eq : YType → YType → Bool
type_eq YType.invalid YType.invalid = true
type_eq YType.string YType.string = true
type_eq YType.list YType.list = true
type_eq YType.set YType.set = true
type_eq YType.sorted_set YType.sorted_set = true
type_eq YType.hash YType.hash = true
type_eq _ _ = false

-- The error, and the object with `ok`.
pub data Lookup : Type 0 where
  ok : YObject → Lookup
  wrong_type not_exist : Lookup

abbrev pub error_of : Lookup → YError
error_of (ok o) = YError.ok
error_of wrong_type = YError.type
error_of not_exist = YError.not_exist

abbrev pub check_type : YType → Option YObject → Lookup
check_type t none = not_exist
check_type t (some o) =
    if not (type_eq t YType.invalid) && not (type_eq t o.type) then wrong_type else ok o

-- `getValueByType(key, value, type, touch)`: the flag `touch` is not used.
unfoldable pub get_value_by_type : Bytes → YType → Bool → Store → Outcome Lookup
unfolding get_object
get_value_by_type key t touch s = do o ← get_object key s; done (check_type t o)

-- `getValue` and `getValueByTypeNoTouch`
unfoldable pub get_value : Bytes → Bool → Store → Outcome Lookup
unfolding get_value_by_type
get_value key true s = get_value_by_type key YType.invalid true s
get_value key false s = get_value_by_type key YType.invalid false s

-- The entry that `(*db)[key]` finds or makes.
abbrev entry : Option YObject → YObject
entry none = new_object YType.invalid
entry (some o) = o

-- The object is moved into its entry, and stamped with 24 bits of the clock.
abbrev pub stored : ℕ → Option YObject → YObject → YObject
stored clock old o = record ((move_from (entry old) o).0) { lru = clock % 2 ^ 24 }

unfoldable pub set_value : Bytes → YObject → Store → Outcome Store
unfolding move_from
set_value key o s = do
  db ← current s
  done (put_current (assign key (stored s.lruclock (find key db) o) db) s)

-- A write through the pointer to the value of the object at `key`.
unfoldable pub update_object : Bytes → YObject → Store → Outcome Store
update_object key o s = do db ← current s; done (put_current (assign key o db) s)
