-- ===== src/Samples.antt =====
-- Objects, stores and arguments that the tests of the commands share.
use yedis.Prelude.{
  ◌≡◌, refl, ap, bytes_eq_refl, if◌then◌else◌, none, some, List, [], ◌∷◌, Bytes, codes,
}
use mathlib.Core.List.{Permᴰ, flatten}
use yedis.Prelude.{ℕ, false, ◌++◌, ltb, arith}
use yedis.Decimal.{value}
use yedis.Sets.{HashTable}
use yedis.SortedSets.{Doubles}
use yedis.Object.{YType, YEncode, Value, YObject}
use yedis.Prelude.Assoc.{find}
use yedis.Store.Laws.{view}
use yedis.Exec.{Env}

abbrev pub key : Bytes
key = codes "key"

abbrev pub field : Bytes
field = codes "field"

abbrev pub one : Bytes
one = codes "one"

abbrev pub two : Bytes
two = codes "two"

abbrev pub empty_env : Env
empty_env = record { store = record { dbs = [] ∷ []; dbno = 0; lruclock = 7 }; reply = [] }

-- One key space, in which `key` has the object.
abbrev pub env_with : YObject → Env
env_with o = record {
  store = record { dbs = ((key, o) ∷ []) ∷ []; dbno = 0; lruclock = 7 };
  reply = [];
}

abbrev pub list_object : List Bytes → YObject
list_object l = record { type = YType.list; encoding = YEncode.list; lru = 0; value = Value.list l }

abbrev pub set_object : List Bytes → YObject
set_object l = record { type = YType.set; encoding = YEncode.set; lru = 0; value = Value.set l }

abbrev pub hash_object : List (Bytes × Bytes) → YObject
hash_object m = record { type = YType.hash; encoding = YEncode.hash; lru = 0; value = Value.hash m }

pub view-empty_env : view empty_env.store key ≡ none
unfolding find
view-empty_env = refl

pub view-env_with : (o : YObject) → view (env_with o).store key ≡ some o
unfolding find
view-env_with o = ap (λ b. if b then some o else none) (bytes_eq_refl key)

pub perm_refl : (l : List Bytes) → Permᴰ l l
perm_refl [] = Permᴰ.nil
perm_refl (s ∷ l) = Permᴰ.cons refl (perm_refl l)

perm_append-nil : (l : List Bytes) → Permᴰ (l ++ []) l
perm_append-nil [] = Permᴰ.nil
perm_append-nil (s ∷ l) = Permᴰ.cons refl (perm_append-nil l)

pub perm-one_bucket : (l : List Bytes) → Permᴰ (flatten (l ∷ [])) l
unfolding flatten
perm-one_bucket l = perm_append-nil l

abbrev pub one_bucket : HashTable
one_bucket = record {
  order = λ l. l;
  order_perm = λ l. ∣ perm_refl l ∣₁;
  buckets = λ l. l ∷ [];
  buckets_perm = λ l. ∣ perm-one_bucket l ∣₁;
}

pub ltb_irrefl : (a : ℕ) → ltb a a ≡ false
ltb_irrefl a = ground arith

abbrev pub decimals : Doubles
decimals = record { atof = value 0; lt = ltb; lt_irrefl = ltb_irrefl }
