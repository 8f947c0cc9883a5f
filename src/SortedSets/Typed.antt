-- ===== src/SortedSets/Typed.antt =====
-- ZADD (src/YSortedSet.cpp) leaves every object with the type of its value.
use yedis.Prelude.{
  ℕ, ◌≡◌, refl, sym, ap, Bool, true, false, Option, none, some, List, [], ◌∷◌, Bytes, length, drop,
  ◌==◌, ◌%◌,
}
use yedis.Prelude.Int.{pos}
use yedis.Store
use yedis.Store.{Store, Lookup}
use yedis.Object.{YType, YError, Value, YObject, SortedSet, create_sset}
use yedis.Exec.{Params, Exec, ◌>>=◌, query, update}
use yedis.Format.{format_int}
use yedis.Typed.{kind, IsTyped, OptionAll, LookupAll, create_sset-IsTyped, with_value-IsTyped}
use yedis.Typed.Rules.{
  Keeps, Any, format-return, seq-Keeps, param-then, then-Keeps, lookup-then, bind-Keeps,
  set_value-Keeps, update_object-Keeps, get_object-Keeps,
}
use yedis.SortedSets.{
  Doubles, find_member, sorted_set_of, sorted_set_made, get_or_create_sortedset, put_sorted_set,
  add_if_absent, add_member, zadd_one, zadd_all, zadd_found, zadd_pairs, zadd,
}

sorted_set_of-then :
    {B : Type 0} (R : B → Type 0) (v : Value) (f : SortedSet → Exec B)
    → ((x : SortedSet) → v ≡ Value.sset x → Keeps R (f x))
    → Keeps R (sorted_set_of v >>= f)
sorted_set_of-then R Value.null f h = λ e t. tt
sorted_set_of-then R (Value.raw s) f h = λ e t. tt
sorted_set_of-then R (Value.long z) f h = λ e t. tt
sorted_set_of-then R (Value.list l) f h = λ e t. tt
sorted_set_of-then R (Value.set l) f h = λ e t. tt
sorted_set_of-then R (Value.hash m) f h = λ e t. tt
sorted_set_of-then R (Value.sset ss) f h = h ss refl

put_sorted_set-Keeps :
    (name : Bytes) (o : YObject) (ss ss' : SortedSet)
    → o.value ≡ Value.sset ss
    → IsTyped o
    → Keeps Any (put_sorted_set name o ss')
put_sorted_set-Keeps name o ss ss' e t =
    update_object-Keeps name (record o { value = Value.sset ss' })
      (with_value-IsTyped o (Value.sset ss') (sym (ap kind e)) t)

sorted_set_made-Keeps :
    (name : Bytes) (l : Lookup) → LookupAll l → Keeps (OptionAll IsTyped) (sorted_set_made name l)
sorted_set_made-Keeps name (Lookup.ok o) t = λ e h. (t, h)
sorted_set_made-Keeps name Lookup.wrong_type t = λ e h. (tt, h)
sorted_set_made-Keeps name Lookup.not_exist t =
    seq-Keeps (OptionAll IsTyped) (update (Store.set_value name create_sset))
      (query (Store.get_object name)) (set_value-Keeps name create_sset create_sset-IsTyped)
      (get_object-Keeps name)

get_or_create_sortedset-Keeps :
    (name : Bytes) → Keeps (OptionAll IsTyped) (get_or_create_sortedset name)
unfolding get_or_create_sortedset
get_or_create_sortedset-Keeps name =
    lookup-then (OptionAll IsTyped) name YType.sorted_set (sorted_set_made name)
      (sorted_set_made-Keeps name)

module _ (doubles : Doubles) where
  add_if_absent-Keeps :
      (member : Bytes) (score : ℕ) (ss : SortedSet) (found : Option ℕ)
      → Keeps Any (add_if_absent doubles member score ss found)
  add_if_absent-Keeps member score ss none = λ e h. (tt, h)
  add_if_absent-Keeps member score ss (some s) = λ e h. tt

  zadd_one-Keeps :
      (member : Bytes) (score : ℕ) (ss : SortedSet) (n : ℕ) (found : Option ℕ)
      → Keeps Any (zadd_one doubles member score (ss, n) found)
  unfolding add_member
  zadd_one-Keeps member score ss n none =
      then-Keeps Any (add_member doubles member score ss) _
        (add_if_absent-Keeps member score ss (find_member member ss)) (λ ss' e h. (tt, h))
  zadd_one-Keeps member score ss n (some s) = λ e h. (tt, h)

  zadd_all-Keeps : (pairs : List Bytes) (r : SortedSet × ℕ) → Keeps Any (zadd_all doubles pairs r)
  unfolding zadd_all
  zadd_all-Keeps [] r = λ e h. (tt, h)
  zadd_all-Keeps (score ∷ []) r = λ e h. tt
  zadd_all-Keeps (score ∷ member ∷ rest) r =
      then-Keeps Any (zadd_one doubles member (doubles.atof score) r (find_member member r.0))
        (zadd_all doubles rest)
        (zadd_one-Keeps member (doubles.atof score) r.0 r.1 (find_member member r.0))
        (zadd_all-Keeps rest)

  zadd_found-Keeps :
      (name : Bytes) (pairs : List Bytes) (o : Option YObject)
      → OptionAll IsTyped o
      → Keeps Any (zadd_found doubles name pairs o)
  zadd_found-Keeps name pairs none t = λ e h. tt
  zadd_found-Keeps name pairs (some o) t = sorted_set_of-then Any o.value _ (λ ss e.
      then-Keeps Any (zadd_all doubles pairs (ss, 0)) _ (zadd_all-Keeps pairs (ss, 0)) (λ r.
        seq-Keeps Any (put_sorted_set name o r.0) _ (put_sorted_set-Keeps name o ss r.0 e t)
          (format-return (format_int (pos r.1)) YError.ok)))

  zadd_pairs-Keeps : (params : Params) (even : Bool) → Keeps Any (zadd_pairs doubles params even)
  zadd_pairs-Keeps params false = λ e h. (tt, h)
  zadd_pairs-Keeps params true = param-then Any 1 params _ (λ name.
      bind-Keeps (OptionAll IsTyped) Any (get_or_create_sortedset name)
        (zadd_found doubles name (drop 2 params)) (get_or_create_sortedset-Keeps name)
        (zadd_found-Keeps name (drop 2 params)))

  pub zadd-Keeps : (params : Params) → Keeps Any (zadd doubles params)
  unfolding zadd
  zadd-Keeps params = zadd_pairs-Keeps params (length params % 2 == 0)
