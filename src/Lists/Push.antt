-- ===== src/Lists/Push.antt =====
-- What LPUSH, RPUSH, LPUSHX and RPUSHX do to the list at a key, on every branch.
use yedis.Prelude.{
  ◌≡◌, refl, sym, ap, ◌∙◌, Bool, true, false, Option, none, some, List, [], ◌∷◌, ◌++◌, append-nil,
  append_assoc, reverse, Bytes, length, bytes_eq_refl, if◌then◌else◌,
}
use mathlib.Core.List.{reverse-append}
use yedis.Prelude.Int.{pos}
use yedis.Outcome.{done}
use yedis.Format.{integer}
use yedis.Object.{YType, YError, Value, YObject, create_list, move_from, new_object, reset}
use yedis.Store.{Store, Lookup, check_type, stored, type_eq}
use yedis.Store.Laws.{
  IsReady, view, selected, with_object, get_value_by_type-IsReady, set_value-IsReady,
  update_object-IsReady, put_current-IsReady, view-with_object, get_object-IsReady,
}
use yedis.Prelude.Assoc.{assign}
use yedis.Exec.{Env, after, answer}
use yedis.Lists.Reply.{IsList, check_type-IsList, replying}
use yedis.Lists.{
  ListPosition, head, tail, push_all, push_values, push_found, push_list, no_such_key,
}

-- The loop that pushes at the head leaves the values in reverse order before the list.
push_all-head : (values l : List Bytes) → push_all head values l ≡ reverse values ++ l
unfolding push_all
push_all-head [] l = refl
push_all-head (s ∷ values) l =
    push_all-head values (s ∷ l)
    ∙ sym (append_assoc (reverse values) (s ∷ []) l)
    ∙ ap (λ k. k ++ l) (sym (reverse-append (s ∷ []) values))

-- The loop that pushes at the tail leaves the values in order behind the list.
push_all-tail : (values l : List Bytes) → push_all tail values l ≡ l ++ values
unfolding push_all
push_all-tail [] l = sym (append-nil l)
push_all-tail (s ∷ values) l = push_all-tail values (l ++ s ∷ []) ∙ append_assoc l (s ∷ []) values

-- The object with another list in it.
abbrev pub with_list : YObject → List Bytes → YObject
with_list o l = record o { value = Value.list l }

-- What a push leaves: the list under its key, and its length in the reply.
abbrev pub pushed : Bytes → YObject → List Bytes → Env → Env
pushed k o l e = record {
  store = with_object k (with_list o l) e.store;
  reply = e.reply ++ integer (pos (length l));
}

push_values_lem :
    (e : Env) (k : Bytes) (p : ListPosition) (values l : List Bytes) (o : YObject)
    → IsReady e.store
    → o.value ≡ Value.list l
    → push_values k p values o e ≡ done (none, pushed k o (push_all p values l) e)
push_values_lem e k p values l o h v =
    rw (v, update_object-IsReady e.store h k (with_list o (push_all p values l)))
      (simp append_assoc)

-- A push on a key that holds the list `l` puts the values in, and answers with the new length.
-- The selected key space is there (`IsReady`).
pub push_list-found :
    (e : Env) (c k : Bytes) (values : List Bytes) (p : ListPosition) (create : Bool) (o : YObject)
    (l : List Bytes)
    → IsReady e.store
    → view e.store k ≡ some o
    → IsList o l
    → push_list p create (c ∷ k ∷ values) e ≡ done (none, pushed k o (push_all p values l) e)
unfolding push_list
push_list-found e c k values p create o l h v t =
    rw (get_value_by_type-IsReady e.store h k YType.list true, v, check_type-IsList o l t)
      (push_values_lem e k p values l o h t.holds)

-- The new object of a key that had no value.
abbrev pub new_list : Store → Bytes → YObject
new_list s k = stored s.lruclock (view s k) create_list

pub new_list-IsList : (s : Store) (k : Bytes) → IsList (new_list s k) []
unfolding create_list move_from reset new_object
new_list-IsList s k = record { of_type = refl; holds = refl }

abbrev pub with_new_list : Bytes → Env → Env
with_new_list k e = record e { store = with_object k (new_list e.store k) e.store }

push_values-new :
    (e : Env) (c k : Bytes) (values : List Bytes) (p : ListPosition)
    → IsReady e.store
    → push_found k p true values Lookup.not_exist e
      ≡ done (none, pushed k (new_list e.store k) (push_all p values []) (with_new_list k e))
push_values-new e c k values p h =
    let s' = with_object k (new_list e.store k) e.store in
    let h' = put_current-IsReady e.store h (assign k (new_list e.store k) (selected e.store)) in
    let v : view s' k ≡ some (new_list e.store k) =
      view-with_object e.store h k k (new_list e.store k)
      ∙ ap (λ b. if b then some (new_list e.store k) else view e.store k) (bytes_eq_refl k) in
    rw (set_value-IsReady e.store h k create_list, get_object-IsReady s' h' k, v)
      (push_values_lem (with_new_list k e) k p values [] (new_list e.store k) h'
        (new_list-IsList e.store k).holds)

-- LPUSH and RPUSH on a key without a value make a list of the values.
-- The selected key space is there (`IsReady`).
pub push_list-new :
    (e : Env) (c k : Bytes) (values : List Bytes) (p : ListPosition)
    → IsReady e.store
    → view e.store k ≡ none
    → push_list p true (c ∷ k ∷ values) e
      ≡ done (none, pushed k (new_list e.store k) (push_all p values []) (with_new_list k e))
unfolding push_list
push_list-new e c k values p h v =
    ap (λ r. after (push_found k p true values) (answer e r))
      (get_value_by_type-IsReady e.store h k YType.list true
        ∙ ap (λ o. done (check_type YType.list o)) v)
    ∙ push_values-new e c k values p h

-- When a push is refused, by its flag to create and the object at its key, and with which error.
pub data Refused : Bool → Option YObject → YError → Type 0 where
  absent : Refused false none YError.not_exist
  mistyped :
      {create : Bool} {o : YObject}
      → type_eq YType.list o.type ≡ false
      → Refused create (some o) YError.type

push_found-Refused :
    (e : Env) (k : Bytes) (p : ListPosition) (values : List Bytes) {create : Bool}
    {o : Option YObject} {err : YError}
    → Refused create o err
    → push_found k p create values (check_type YType.list o) e
      ≡ done (some err, replying no_such_key e)
push_found-Refused e k p values Refused.absent = refl
push_found-Refused e k p values (Refused.mistyped t) = rw (t, check_type)

-- LPUSHX and RPUSHX on a key without a value, and any push on a key of another type, answer with an
-- error and leave the store as it is.
-- The selected key space is there (`IsReady`).
push_list-Refused :
    (e : Env) (c k : Bytes) (values : List Bytes) (p : ListPosition) (create : Bool) (err : YError)
    → IsReady e.store
    → Refused create (view e.store k) err
    → push_list p create (c ∷ k ∷ values) e ≡ done (some err, replying no_such_key e)
unfolding push_list
push_list-Refused e c k values p create err h r =
    rw (get_value_by_type-IsReady e.store h k YType.list true) (push_found-Refused e k p values r)
