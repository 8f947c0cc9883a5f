-- ===== src/Object.antt =====
-- src/YedisCommon.h and src/YedisCommon.cpp: the objects of the key space and their ownership.
-- `void* value` is the thing it points to, or the number that it holds.
use yedis.Prelude.{ℕ, Option, none, some, List, [], Bytes}
use yedis.Prelude.Int.{ℤ}
use yedis.Prelude.Assoc.{Assoc}
use yedis.Strtol.{string_to_long}

pub data YType : Type 0 where
  invalid string list set sorted_set hash : YType

pub data YEncode : Type 0 where
  invalid raw int list set hash sset : YEncode

pub data YError : Type 0 where
  nop ok type exist not_exist param unknow_cmd nan syntax dirty_exec watch no_multi : YError
  invalid_db readonly_slave need_auth err_auth nomodule moduleinit moduleuninit : YError
  modulerepeat busykey max : YError

-- The two indices of a sorted set. A score is the bit pattern of a `double`.
pub record SortedSet : Type 0 where
  pub score2_members : List (ℕ × List Bytes)
  pub member2_scores : Assoc ℕ

pub data Value : Type 0 where
  null : Value
  raw : Bytes → Value
  long : ℤ → Value
  list : List Bytes → Value
  set : List Bytes → Value
  hash : Assoc Bytes → Value
  sset : SortedSet → Value

pub record YObject : Type 0 where
  pub type : YType
  pub encoding : YEncode
  pub lru : ℕ
  pub value : Value

-- `YObject(YType t)`
abbrev pub encoding_of : YType → YEncode
encoding_of YType.list = YEncode.list
encoding_of YType.set = YEncode.set
encoding_of YType.sorted_set = YEncode.sset
encoding_of YType.hash = YEncode.hash
encoding_of YType.invalid = YEncode.invalid
encoding_of YType.string = YEncode.invalid

unfoldable pub new_object : YType → YObject
new_object t = record { type = t; encoding = encoding_of t; lru = 0; value = Value.null }

-- What `freeValue` deletes: the value that the encoding names, if it is one on the heap.
unfoldable pub free_value : YObject → Option Value
free_value o = elim o.encoding [
  | raw ↦ some o.value
  | list ↦ some o.value
  | set ↦ some o.value
  | sset ↦ some o.value
  | hash ↦ some o.value
  | invalid ↦ none
  | int ↦ none
]

-- The functions below return what they delete beside the object.
unfoldable pub clear : YObject → YObject × Option Value
clear o = (
  record { type = YType.invalid; encoding = YEncode.invalid; lru = 0; value = Value.null },
  free_value o,
)

unfoldable pub reset : Value → YObject → YObject × Option Value
reset v o = (record o { value = v }, free_value o)

-- `this` and `obj` after the move, and what `this` deleted.
unfoldable pub move_from : YObject → YObject → YObject × YObject × Option Value
unfolding reset
move_from this obj =
    let (this', freed) = reset Value.null this in
    (
      record this' { encoding = obj.encoding; type = obj.type; value = obj.value; lru = obj.lru },
      record { encoding = YEncode.invalid; type = YType.invalid; value = Value.null; lru = 0 },
      freed,
    )

-- A text that is a number is held as the number.
abbrev pub string_object : Bytes → Option ℤ → YObject
string_object v none = record (new_object YType.string) {
  encoding = YEncode.raw;
  value = Value.raw v;
}
string_object v (some z) = record (new_object YType.string) {
  encoding = YEncode.int;
  value = Value.long z;
}

unfoldable pub create_string : Bytes → YObject
unfolding new_object
create_string v = string_object v (string_to_long v)

unfoldable pub create_string_of_long : ℤ → YObject
unfolding new_object
create_string_of_long z = record (new_object YType.string) {
  encoding = YEncode.int;
  value = Value.long z;
}

unfoldable pub create_list : YObject
unfolding reset new_object
create_list = (reset (Value.list []) (new_object YType.list)).0

unfoldable pub create_set : YObject
unfolding reset new_object
create_set = (reset (Value.set []) (new_object YType.set)).0

unfoldable pub create_hash : YObject
unfolding reset new_object
create_hash = (reset (Value.hash []) (new_object YType.hash)).0

unfoldable pub create_sset : YObject
unfolding reset new_object
create_sset =
    (reset (Value.sset (record { score2_members = []; member2_scores = [] }))
      (new_object YType.sorted_set)).0
