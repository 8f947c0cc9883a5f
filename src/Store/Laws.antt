-- ===== src/Store/Laws.antt =====
-- What the operations of the store do, seen through `view`: the objects of the selected key space.
use yedis.Prelude.{
  ℕ, zero, suc, ◌<◌, ◌≡◌, ◌≢◌, refl, sym, ap, ◌∙◌, Bool, true, Option, none, some, List, [], ◌∷◌,
  Bytes, length, get_elem?, set, bytes_eq, if◌then◌else◌, arith,
}
use yedis.Prelude.Assoc.{find, assign, erase, find-assign, find-erase}
use yedis.Outcome.{done}
use yedis.Object.{YType, YObject}
use yedis.Store.{
  Db, Store, current, in_range, put_current, get_object, delete_key, is_some, check_type,
  get_value_by_type, get_value, stored, set_value, update_object,
}

-- The selected key space is there.
abbrev pub IsReady : Store → Type 0
IsReady s = s.dbno < length s.dbs

abbrev pub or_empty : Option Db → Db
or_empty none = []
or_empty (some db) = db

abbrev pub selected : Store → Db
selected s = or_empty (get_elem? s.dbs s.dbno)

abbrev pub view : Store → Bytes → Option YObject
view s k = find k (selected s)

abbrev pub with_object : Bytes → YObject → Store → Store
with_object k o s = put_current (assign k o (selected s)) s

abbrev pub without_key : Bytes → Store → Store
without_key k s = put_current (erase k (selected s)) s

get_elem?-lt {ℓ} :
    {A : Type ℓ} (l : List A) (i : ℕ) → i < length l → (a : A) × (get_elem? l i ≡ some a)
get_elem?-lt [] i h = absurd (omega arith)
get_elem?-lt (x ∷ l) zero h = (x, refl)
get_elem?-lt (x ∷ l) (suc i) h = get_elem?-lt l i (omega arith)

get_elem?-set_self {ℓ} :
    {A : Type ℓ} (l : List A) (i : ℕ) (a : A) → i < length l → get_elem? (set l i a) i ≡ some a
get_elem?-set_self [] i a h = absurd (omega arith)
get_elem?-set_self (x ∷ l) zero a h = refl
get_elem?-set_self (x ∷ l) (suc i) a h = get_elem?-set_self l i a (omega arith)

get_elem?-set_ne {ℓ} :
    {A : Type ℓ} (l : List A) (i j : ℕ) (a : A) → i ≢ j → get_elem? (set l i a) j ≡ get_elem? l j
get_elem?-set_ne [] i j a h = refl
get_elem?-set_ne (x ∷ l) zero zero a h = absurd (h refl)
get_elem?-set_ne (x ∷ l) zero (suc j) a h = refl
get_elem?-set_ne (x ∷ l) (suc i) zero a h = refl
get_elem?-set_ne (x ∷ l) (suc i) (suc j) a h = get_elem?-set_ne l i j a (λ e. h (ap suc e))

length-set {ℓ} : {A : Type ℓ} (l : List A) (i : ℕ) (a : A) → length (set l i a) ≡ length l
length-set [] i a = refl
length-set (x ∷ l) zero a = refl
length-set (x ∷ l) (suc i) a = ap suc (length-set l i a)

pub current-IsReady : (s : Store) → IsReady s → current s ≡ done (selected s)
current-IsReady s h =
    let (db, e) = get_elem?-lt s.dbs s.dbno h in ap in_range e ∙ ap done (sym (ap or_empty e))

module _ (s : Store) (h : IsReady s) where
  pub get_object-IsReady : (k : Bytes) → get_object k s ≡ done (view s k)
  unfolding get_object
  get_object-IsReady k = rw (current-IsReady s h)

  pub get_value_by_type-IsReady :
      (k : Bytes) (t : YType) (touch : Bool)
      → get_value_by_type k t touch s ≡ done (check_type t (view s k))
  unfolding get_value_by_type
  get_value_by_type-IsReady k t touch = rw (current-IsReady s h)

  pub get_value-IsReady :
      (k : Bytes) → get_value k true s ≡ done (check_type YType.invalid (view s k))
  unfolding get_value
  get_value-IsReady k = rw (current-IsReady s h)

  pub set_value-IsReady :
      (k : Bytes) (o : YObject)
      → set_value k o s ≡ done (with_object k (stored s.lruclock (view s k) o) s)
  unfolding set_value
  set_value-IsReady k o = rw (current-IsReady s h)

  pub update_object-IsReady :
      (k : Bytes) (o : YObject) → update_object k o s ≡ done (with_object k o s)
  unfolding update_object
  update_object-IsReady k o = rw (current-IsReady s h)

  pub delete_key-IsReady : (k : Bytes) → delete_key k s ≡ done (is_some (view s k), without_key k s)
  unfolding delete_key
  delete_key-IsReady k = rw (current-IsReady s h)

  pub selected-put_current : (db : Db) → selected (put_current db s) ≡ db
  selected-put_current db = ap or_empty (get_elem?-set_self s.dbs s.dbno db h)

  pub put_current-IsReady : (db : Db) → IsReady (put_current db s)
  put_current-IsReady db = omega (arith, length-set s.dbs s.dbno db)

  pub view-with_object :
      (k j : Bytes) (o : YObject)
      → view (with_object k o s) j ≡ (if bytes_eq k j then some o else view s j)
  view-with_object k j o =
      ap (find j) (selected-put_current (assign k o (selected s))) ∙ find-assign k j o (selected s)

  pub view-without_key :
      (k j : Bytes) → view (without_key k s) j ≡ (if bytes_eq k j then none else view s j)
  view-without_key k j =
      ap (find j) (selected-put_current (erase k (selected s))) ∙ find-erase k j (selected s)

-- The other key spaces are not touched.
pub get_elem?-put_current :
    (s : Store) (db : Db) (i : ℕ)
    → s.dbno ≢ i
    → get_elem? (put_current db s).dbs i ≡ get_elem? s.dbs i
get_elem?-put_current s db i h = get_elem?-set_ne s.dbs s.dbno i db h
