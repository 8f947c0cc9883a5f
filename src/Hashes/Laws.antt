-- ===== src/Hashes/Laws.antt =====
-- What a client sees of HSET and HGET.
use yedis.Prelude.{
  ◌≡◌, refl, ap, ◌∙◌, true, Option, none, some, List, [], ◌∷◌, ◌++◌, Bytes, codes, crlf, bytes_eq,
  bytes_eq_refl, if◌then◌else◌,
}
use yedis.Prelude.Int.{pos}
use yedis.Prelude.Assoc.{Assoc, find, assign, find-assign}
use yedis.Outcome.{done}
use yedis.Format.{bulk, integer, format_bulk_lem, format_int_lem, format_null_lem}
use yedis.Object.{YType, YError, Value, YObject, create_hash, move_from, new_object, reset}
use yedis.Store.{Store, Lookup, check_type, stored}
use yedis.Store.Laws.{
  IsReady, view, selected, with_object, get_value_by_type-IsReady, set_value-IsReady,
  update_object-IsReady, get_object-IsReady, put_current-IsReady, view-with_object,
}
use yedis.Exec.{Env, ◌>>=◌, after, answer}
use yedis.Hashes.{hset_found, hash_made, hset, hget, reply_field}

-- The object at a key is the table `m`.
pub record IsHash (o : YObject) (m : Assoc Bytes) : Type 0 where
  pub of_type : o.type ≡ YType.hash
  pub holds : o.value ≡ Value.hash m

abbrev pub with_hash : YObject → Assoc Bytes → YObject
with_hash o m = record o { value = Value.hash m }

check_type-IsHash :
    (o : YObject) (m : Assoc Bytes) → IsHash o m → check_type YType.hash (some o) ≡ Lookup.ok o
check_type-IsHash o m h = rw (check_type, h.of_type)

-- What HSET leaves.
abbrev pub hset_env : Bytes → YObject → Assoc Bytes → Bytes → Bytes → Env → Env
hset_env k o m f v e = record {
  store = with_object k (with_hash o (assign f v m)) e.store;
  reply = e.reply ++ integer (pos 1);
}

hset_found_lem :
    (e : Env) (c k f v : Bytes) (rest : List Bytes) (o : YObject) (m : Assoc Bytes)
    → IsReady e.store
    → o.value ≡ Value.hash m
    → hset_found k (c ∷ k ∷ f ∷ v ∷ rest) (some o) e ≡ done (some YError.ok, hset_env k o m f v e)
hset_found_lem e c k f v rest o m h t = rw (
  t,
  update_object-IsReady e.store h k (with_hash o (assign f v m)),
  format_int_lem (pos 1) e.reply,
)

hset-found :
    (e : Env) (c k f v : Bytes) (rest : List Bytes) (o : YObject) (m : Assoc Bytes)
    → IsReady e.store
    → view e.store k ≡ some o
    → IsHash o m
    → hset (c ∷ k ∷ f ∷ v ∷ rest) e ≡ done (some YError.ok, hset_env k o m f v e)
unfolding hset
hset-found e c k f v rest o m h q t =
    rw (get_value_by_type-IsReady e.store h k YType.hash true, q, check_type-IsHash o m t)
      (hset_found_lem e c k f v rest o m h t.holds)

hget-found :
    (e : Env) (c k f : Bytes) (rest : List Bytes) (o : YObject) (m : Assoc Bytes)
    → IsReady e.store
    → view e.store k ≡ some o
    → IsHash o m
    → hget (c ∷ k ∷ f ∷ rest) e ≡ reply_field (find f m) e
unfolding hget
hget-found e c k f rest o m h q t =
    rw (get_value_by_type-IsReady e.store h k YType.hash true, q, check_type-IsHash o m t, t.holds)

with_hash-IsHash : (o : YObject) (m m' : Assoc Bytes) → IsHash o m → IsHash (with_hash o m') m'
with_hash-IsHash o m m' h = record { of_type = h.of_type; holds = refl }

view-hset_env :
    (k : Bytes) (o : YObject) (m : Assoc Bytes) (f v : Bytes) (e : Env)
    → IsReady e.store
    → view (hset_env k o m f v e).store k ≡ some (with_hash o (assign f v m))
view-hset_env k o m f v e h =
    view-with_object e.store h k k (with_hash o (assign f v m))
    ∙ ap (λ b. if b then some (with_hash o (assign f v m)) else view e.store k) (bytes_eq_refl k)

-- What the protocol prescribes for a field: a bulk string, or null.
abbrev pub field_text : Option Bytes → Bytes
field_text none = codes "$-1" ++ crlf
field_text (some v) = bulk v

reply_field_lem :
    (r : Option Bytes) (e : Env)
    → reply_field r e ≡ done (some YError.ok, record e { reply = e.reply ++ field_text r })
reply_field_lem none e = rw (format_null_lem e.reply) refl
reply_field_lem (some v) e = rw (format_bulk_lem v e.reply) refl

-- HSET in a table answers 1, and HGET behind it answers with the value that was set, as a bulk string,
-- if it asks for that field, and for another field with the value that was there before, or with null;
-- the store is the one with the field set.
-- The selected key space is there (`IsReady`).
pub hget-hset :
    (e : Env) (c d k f g v : Bytes) (rest more : List Bytes) (o : YObject) (m : Assoc Bytes)
    → IsReady e.store
    → view e.store k ≡ some o
    → IsHash o m
    → (hset (c ∷ k ∷ f ∷ v ∷ rest) >>= λ _. hget (d ∷ k ∷ g ∷ more)) e
      ≡ done (
        some YError.ok,
        record {
          store = with_object k (with_hash o (assign f v m)) e.store;
          reply =
              (e.reply ++ integer (pos 1))
              ++ field_text (if bytes_eq f g then some v else find g m);
        },
      )
hget-hset e c d k f g v rest more o m h q t = rw (hset-found e c k f v rest o m h q t) (
    hget-found (hset_env k o m f v e) d k g more (with_hash o (assign f v m)) (assign f v m)
      (put_current-IsReady e.store h _) (view-hset_env k o m f v e h)
      (with_hash-IsHash o m (assign f v m) t)
    ∙ reply_field_lem (find g (assign f v m)) (hset_env k o m f v e)
    ∙ ap
        (λ r. done (
          some YError.ok,
          record (hset_env k o m f v e) { reply = (hset_env k o m f v e).reply ++ field_text r },
        ))
        (find-assign f g v m))

abbrev pub new_hash : Store → Bytes → YObject
new_hash s k = stored s.lruclock (view s k) create_hash

new_hash-IsHash : (s : Store) (k : Bytes) → IsHash (new_hash s k) []
unfolding create_hash move_from reset new_object
new_hash-IsHash s k = record { of_type = refl; holds = refl }

abbrev pub with_new_hash : Bytes → Env → Env
with_new_hash k e = record e { store = with_object k (new_hash e.store k) e.store }

hash_made-new :
    (e : Env) (k : Bytes)
    → IsReady e.store
    → hash_made k Lookup.not_exist e ≡ done (some (new_hash e.store k), with_new_hash k e)
hash_made-new e k h =
    let s' = with_object k (new_hash e.store k) e.store in
    let h' = put_current-IsReady e.store h (assign k (new_hash e.store k) (selected e.store)) in
    let v : view s' k ≡ some (new_hash e.store k) =
      view-with_object e.store h k k (new_hash e.store k)
      ∙ ap (λ b. if b then some (new_hash e.store k) else view e.store k) (bytes_eq_refl k) in
    rw (set_value-IsReady e.store h k create_hash, get_object-IsReady s' h' k, v)

-- HSET on a key without a value makes a table with that one field, and answers 1.
-- The selected key space is there (`IsReady`).
hset-new :
    (e : Env) (c k f v : Bytes) (rest : List Bytes)
    → IsReady e.store
    → view e.store k ≡ none
    → hset (c ∷ k ∷ f ∷ v ∷ rest) e
      ≡ done (some YError.ok, hset_env k (new_hash e.store k) [] f v (with_new_hash k e))
unfolding hset
hset-new e c k f v rest h q =
    let h' = put_current-IsReady e.store h (assign k (new_hash e.store k) (selected e.store)) in
    ap (λ r. after (hset_found k (c ∷ k ∷ f ∷ v ∷ rest)) (after (hash_made k) (answer e r)))
      (get_value_by_type-IsReady e.store h k YType.hash true
        ∙ ap (λ o. done (check_type YType.hash o)) q)
    ∙ ap (after (hset_found k (c ∷ k ∷ f ∷ v ∷ rest))) (hash_made-new e k h)
    ∙ hset_found_lem (with_new_hash k e) c k f v rest (new_hash e.store k) [] h'
        (new_hash-IsHash e.store k).holds
