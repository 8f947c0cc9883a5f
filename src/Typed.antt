-- ===== src/Typed.antt =====
-- The type tags of the objects in the store (src/YedisCommon.h): that they agree with the values, and
-- the operations of the store (src/YedisStore.cpp).
pub mod Rules
use yedis.Prelude.{
  ℕ, zero, suc, ◌≡◌, ap, ◌∙◌, refl, Bool, true, false, Option, none, some, List, [], ◌∷◌, ◌++◌,
  Bytes, All, get_elem?, set, bytes_eq, if◌then◌else◌, take, replicate, not, ◌&&◌,
}
use yedis.Prelude.Maps.{if-cases}
use yedis.Prelude.Assoc.{Assoc, find, assign, erase}
use yedis.Outcome.{Outcome, done, fault, out_of_fuel, ◌>>=◌}
use yedis.Object.{
  YType, YEncode, Value, YObject, new_object, reset, move_from, string_object, create_string,
  create_list, create_set, create_hash, create_sset,
}
use yedis.Store.{
  Db, Store, Lookup, in_range, current, put_current, check_type, type_eq, stored, is_some,
  get_object, get_value_by_type, get_value, set_value, update_object, delete_key,
}
use yedis.Strtol.{string_to_long}

-- The encoding that a value is of.
abbrev pub kind : Value → YEncode
kind Value.null = YEncode.invalid
kind (Value.raw s) = YEncode.raw
kind (Value.long z) = YEncode.int
kind (Value.list l) = YEncode.list
kind (Value.set l) = YEncode.set
kind (Value.hash m) = YEncode.hash
kind (Value.sset ss) = YEncode.sset

-- The type, the encoding, and the kind of the value behind the void pointer.
abbrev pub fits : YType → YEncode → YEncode → Bool
fits YType.string YEncode.raw YEncode.raw = true
fits YType.string YEncode.int YEncode.int = true
fits YType.list YEncode.list YEncode.list = true
fits YType.set YEncode.set YEncode.set = true
fits YType.sorted_set YEncode.sset YEncode.sset = true
fits YType.hash YEncode.hash YEncode.hash = true
fits _ _ _ = false

abbrev pub IsTyped : YObject → Type 0
IsTyped o = fits o.type o.encoding (kind o.value) ≡ true

-- Every object of every key space.
abbrev pub Typed : Store → Type 0
Typed s = All (All (λ entry. IsTyped entry.1)) s.dbs

abbrev pub OptionAll {ℓ} : {A : Type ℓ} → (A → Type 0) → Option A → Type 0
OptionAll P none = Unit
OptionAll P (some a) = P a

abbrev pub OutcomeAll {ℓ} : {A : Type ℓ} → (A → Type 0) → Outcome A → Type 0
OutcomeAll P (done a) = P a
OutcomeAll P fault = Unit
OutcomeAll P out_of_fuel = Unit

module _ {ℓ} {A : Type ℓ} (P : A → Type 0) where
  get_elem?-OptionAll : (l : List A) (i : ℕ) → All P l → OptionAll P (get_elem? l i)
  get_elem?-OptionAll [] i h = tt
  get_elem?-OptionAll (x ∷ l) zero h = h.0
  get_elem?-OptionAll (x ∷ l) (suc i) h = get_elem?-OptionAll l i h.1

  set-All : (l : List A) (i : ℕ) (a : A) → P a → All P l → All P (set l i a)
  set-All [] i a p h = tt
  set-All (x ∷ l) zero a p h = (p, h.1)
  set-All (x ∷ l) (suc i) a p h = (h.0, set-All l i a p h.1)

module _ {V : Type 0} (P : V → Type 0) where
  abbrev pub Entries : Assoc V → Type 0
  Entries m = All (λ entry. P entry.1) m

  pub find-Entries : (k : Bytes) (m : Assoc V) → Entries m → OptionAll P (find k m)
  unfolding find
  find-Entries k [] h = tt
  find-Entries k ((j, v) ∷ m) h =
      if-cases (OptionAll P) (bytes_eq j k) (λ e. h.0) (λ e. find-Entries k m h.1)

  pub assign-Entries : (k : Bytes) (v : V) (m : Assoc V) → P v → Entries m → Entries (assign k v m)
  unfolding assign
  assign-Entries k v [] p h = (p, tt)
  assign-Entries k v ((j, w) ∷ m) p h =
      if-cases Entries (bytes_eq j k) {v = (k, v) ∷ m} {w = (j, w) ∷ assign k v m} (λ e. (p, h.1))
        (λ e. (h.0, assign-Entries k v m p h.1))

  pub erase-Entries : (k : Bytes) (m : Assoc V) → Entries m → Entries (erase k m)
  unfolding erase
  erase-Entries k [] h = tt
  erase-Entries k ((j, w) ∷ m) h =
      if-cases Entries (bytes_eq j k) {v = erase k m} {w = (j, w) ∷ erase k m}
        (λ e. erase-Entries k m h.1) (λ e. (h.0, erase-Entries k m h.1))

pub create_string-IsTyped : (v : Bytes) → IsTyped (create_string v)
unfolding create_string new_object
create_string-IsTyped v = elim (string_to_long v) as (λ o. IsTyped (string_object v o)) [
  | none ↦ refl
  | some z ↦ refl
]

pub create_list-IsTyped : IsTyped create_list
unfolding create_list reset new_object
create_list-IsTyped = refl

pub create_set-IsTyped : IsTyped create_set
unfolding create_set reset new_object
create_set-IsTyped = refl

pub create_hash-IsTyped : IsTyped create_hash
unfolding create_hash reset new_object
create_hash-IsTyped = refl

pub create_sset-IsTyped : IsTyped create_sset
unfolding create_sset reset new_object
create_sset-IsTyped = refl

abbrev pub LookupAll : Lookup → Type 0
LookupAll (Lookup.ok o) = IsTyped o
LookupAll Lookup.wrong_type = Unit
LookupAll Lookup.not_exist = Unit

bind-OutcomeAll :
    {A B : Type 0} (P : A → Type 0) (Q : B → Type 0) (o : Outcome A) (f : A → Outcome B)
    → OutcomeAll P o
    → ((a : A) → P a → OutcomeAll Q (f a))
    → OutcomeAll Q (o >>= f)
bind-OutcomeAll P Q (done a) f h k = k a h
bind-OutcomeAll P Q fault f h k = tt
bind-OutcomeAll P Q out_of_fuel f h k = tt

in_range-All :
    (o : Option Db) → OptionAll (Entries IsTyped) o → OutcomeAll (Entries IsTyped) (in_range o)
in_range-All none h = tt
in_range-All (some db) h = h

-- What `check_type` finds is the object, or an error.
check_type-All : (t : YType) (o : Option YObject) → OptionAll IsTyped o → LookupAll (check_type t o)
check_type-All t none h = tt
check_type-All t (some o) h =
    if-cases LookupAll (not (type_eq t YType.invalid) && not (type_eq t o.type)) (λ e. tt) (λ e. h)

module _ (s : Store) (h : Typed s) where
  current-All : OutcomeAll (Entries IsTyped) (current s)
  current-All =
      in_range-All (get_elem? s.dbs s.dbno) (get_elem?-OptionAll (Entries IsTyped) s.dbs s.dbno h)

  put_current-Typed : (db : Db) → Entries IsTyped db → Typed (put_current db s)
  put_current-Typed db e = set-All (Entries IsTyped) s.dbs s.dbno db e h

  pub get_object-All : (k : Bytes) → OutcomeAll (OptionAll IsTyped) (get_object k s)
  unfolding get_object
  get_object-All k =
      bind-OutcomeAll (Entries IsTyped) (OptionAll IsTyped) (current s) (λ db. done (find k db))
        current-All (λ db e. find-Entries IsTyped k db e)

  pub get_value_by_type-All :
      (k : Bytes) (t : YType) (touch : Bool) → OutcomeAll LookupAll (get_value_by_type k t touch s)
  unfolding get_value_by_type
  get_value_by_type-All k t touch =
      bind-OutcomeAll (OptionAll IsTyped) LookupAll (get_object k s) (λ o. done (check_type t o))
        (get_object-All k) (λ o e. check_type-All t o e)

  pub set_value-All : (k : Bytes) (o : YObject) → IsTyped o → OutcomeAll Typed (set_value k o s)
  unfolding set_value move_from reset
  set_value-All k o typed =
      bind-OutcomeAll (Entries IsTyped) Typed (current s)
        (λ db. done (put_current (assign k (stored s.lruclock (find k db) o) db) s)) current-All
        (λ db e.
          put_current-Typed (assign k (stored s.lruclock (find k db) o) db)
            (assign-Entries IsTyped k (stored s.lruclock (find k db) o) db typed e))

  pub update_object-All :
      (k : Bytes) (o : YObject) → IsTyped o → OutcomeAll Typed (update_object k o s)
  unfolding update_object
  update_object-All k o typed =
      bind-OutcomeAll (Entries IsTyped) Typed (current s)
        (λ db. done (put_current (assign k o db) s)) current-All
        (λ db e. put_current-Typed (assign k o db) (assign-Entries IsTyped k o db typed e))

  pub delete_key-All : (k : Bytes) → OutcomeAll (λ r. Typed r.1) (delete_key k s)
  unfolding delete_key
  delete_key-All k =
      bind-OutcomeAll (Entries IsTyped) (λ r. Typed r.1) (current s)
        (λ db. done (is_some (find k db), put_current (erase k db) s)) current-All
        (λ db e. put_current-Typed (erase k db) (erase-Entries IsTyped k db e))

-- A value of the same kind in its place.
pub with_value-IsTyped :
    (o : YObject) (v : Value) → kind v ≡ kind o.value → IsTyped o → IsTyped (record o { value = v })
with_value-IsTyped o v e t = ap (fits o.type o.encoding) e ∙ t
