-- ===== src/Lists/Pop.antt =====
-- What LPOP and RPOP do, alone and behind a push.
use yedis.Prelude.{
  ◌+◌, ◌≡◌, refl, ap, ◌∙◌, true, Option, none, some, List, [], ◌∷◌, ◌++◌, arith, Bytes, length,
  bytes_eq_refl, if◌then◌else◌,
}
use yedis.Prelude.Int.{pos}
use yedis.Prelude.Assoc.{assign}
use yedis.Outcome.{done, fault}
use yedis.Format.{integer, bulk, format_bulk_lem}
use yedis.Object.{YType, YError, Value, YObject}
use yedis.Store.{Store, Lookup}
use yedis.Store.Laws.{
  IsReady, view, selected, with_object, without_key, get_value_by_type-IsReady,
  update_object-IsReady, delete_key-IsReady, put_current-IsReady, view-with_object,
  view-without_key,
}
use yedis.Exec.{Env, ◌>>=◌}
use yedis.Lists.Reply.{IsList, check_type-IsList}
use yedis.Lists.Push.{
  with_list, pushed, push_list-found, push_list-new, new_list, new_list-IsList, with_new_list,
}
use yedis.Lists.{
  ListPosition, head, tail, take_back, take_one, pop_found, reply_popped, lpop, rpop, lpush,
  push_all,
}

-- The store behind a pop that leaves the list `l`: an empty list goes with its key.
abbrev pub after_pop : Bytes → YObject → List Bytes → Store → Store
after_pop k o [] s = without_key k (with_object k (with_list o []) s)
after_pop k o (x ∷ l) s = with_object k (with_list o (x ∷ l)) s

abbrev pub popped : Bytes → YObject → Bytes → List Bytes → Env → Env
popped k o s l e = record { store = after_pop k o l e.store; reply = e.reply ++ bulk s }

pop_found-taken :
    (e : Env) (k : Bytes) (p : ListPosition) (o : YObject) (l rest : List Bytes) (s : Bytes)
    → IsReady e.store
    → o.value ≡ Value.list l
    → take_one p l e ≡ done ((s, rest), e)
    → (pop_found k p (Lookup.ok o) >>= reply_popped) e ≡ done (some YError.ok, popped k o s rest e)
pop_found-taken e k p o l [] s h v t =
    let s' = with_object k (with_list o []) e.store in
    let h' = put_current-IsReady e.store h (assign k (with_list o []) (selected e.store)) in
    rw (
      v,
      t,
      update_object-IsReady e.store h k (with_list o []),
      delete_key-IsReady s' h' k,
      format_bulk_lem s e.reply,
    )
pop_found-taken e k p o l (x ∷ rest) s h v t =
    rw (v, t, update_object-IsReady e.store h k (with_list o (x ∷ rest)), format_bulk_lem s e.reply)

-- LPOP of a list answers with its first element and leaves the rest; the last element takes the key
-- with it.
-- The selected key space is there (`IsReady`).
lpop_lem :
    (e : Env) (c k : Bytes) (more : List Bytes) (o : YObject) (s : Bytes) (rest : List Bytes)
    → IsReady e.store
    → view e.store k ≡ some o
    → IsList o (s ∷ rest)
    → lpop (c ∷ k ∷ more) e ≡ done (some YError.ok, popped k o s rest e)
unfolding lpop
lpop_lem e c k more o s rest h v t =
    rw (get_value_by_type-IsReady e.store h k YType.list true, v, check_type-IsList o (s ∷ rest) t)
      (pop_found-taken e k head o (s ∷ rest) rest s h t.holds refl)

take_back-append : (s x : Bytes) (l : List Bytes) → take_back s (l ++ x ∷ []) ≡ (x, s ∷ l)
take_back-append s x [] = refl
take_back-append s x (t ∷ l) = rw (take_back-append t x l)

take_one-tail :
    (e : Env) (x : Bytes) (l : List Bytes) → take_one tail (l ++ x ∷ []) e ≡ done ((x, l), e)
take_one-tail e x [] = refl
take_one-tail e x (s ∷ l) = rw (take_back-append s x l)

-- RPOP of a list answers with its last element and leaves the rest; the last element takes the key
-- with it.
-- The selected key space is there (`IsReady`).
rpop_lem :
    (e : Env) (c k : Bytes) (more : List Bytes) (o : YObject) (s : Bytes) (rest : List Bytes)
    → IsReady e.store
    → view e.store k ≡ some o
    → IsList o (rest ++ s ∷ [])
    → rpop (c ∷ k ∷ more) e ≡ done (some YError.ok, popped k o s rest e)
unfolding rpop
rpop_lem e c k more o s rest h v t =
    rw
      (
        get_value_by_type-IsReady e.store h k YType.list true,
        v,
        check_type-IsList o (rest ++ s ∷ []) t,
      )
      (pop_found-taken e k tail o (rest ++ s ∷ []) rest s h t.holds (take_one-tail e s rest))

-- The object that a list leaves at its key: none if the list is empty.
abbrev pub left_at : YObject → List Bytes → Option YObject
left_at o [] = none
left_at o (x ∷ l) = some (with_list o (x ∷ l))

pub view-after_pop :
    (k : Bytes) (o : YObject) (l : List Bytes) (s : Store)
    → IsReady s
    → view (after_pop k o l s) k ≡ left_at o l
view-after_pop k o [] s h =
    view-without_key (with_object k (with_list o []) s) (put_current-IsReady s h _) k k
    ∙ ap (λ b. if b then none else view (with_object k (with_list o []) s) k) (bytes_eq_refl k)
view-after_pop k o (x ∷ l) s h =
    view-with_object s h k k (with_list o (x ∷ l))
    ∙ ap (λ b. if b then some (with_list o (x ∷ l)) else view s k) (bytes_eq_refl k)

view-pushed :
    (k : Bytes) (o : YObject) (l : List Bytes) (e : Env)
    → IsReady e.store
    → view (pushed k o l e).store k ≡ some (with_list o l)
view-pushed k o l e h =
    view-with_object e.store h k k (with_list o l)
    ∙ ap (λ b. if b then some (with_list o l) else view e.store k) (bytes_eq_refl k)

with_list-IsList : (o : YObject) (old l : List Bytes) → IsList o old → IsList (with_list o l) l
with_list-IsList o old l h = record { of_type = h.of_type; holds = refl }

left_at-with_list : (o : YObject) (l l' : List Bytes) → left_at (with_list o l) l' ≡ left_at o l'
left_at-with_list o l [] = refl
left_at-with_list o l (x ∷ l') = refl

-- LPOP behind an LPUSH of one value on a list answers with that value, and what is at the key is
-- again the list of before, or nothing if that was empty.
-- The selected key space is there (`IsReady`).
pub lpop-lpush :
    (e : Env) (c d k s : Bytes) (more : List Bytes) (o : YObject) (l : List Bytes)
    → IsReady e.store
    → view e.store k ≡ some o
    → IsList o l
    → (e' : Env) × ((lpush (c ∷ k ∷ s ∷ []) >>= λ _. lpop (d ∷ k ∷ more)) e
        ≡ done (some YError.ok, e'))
      × (e'.reply ≡ (e.reply ++ integer (pos (length l + 1))) ++ bulk s)
      × (view e'.store k ≡ left_at o l)
unfolding lpush push_all
lpop-lpush e c d k s more o l h v t =
    let e₁ = pushed k o (s ∷ l) e in
    let o₁ = with_list o (s ∷ l) in
    let h₁ = put_current-IsReady e.store h (assign k o₁ (selected e.store)) in
    (
      popped k o₁ s l e₁,
      rw (push_list-found e c k (s ∷ []) head true o l h v t) (
          lpop_lem e₁ d k more o₁ s l h₁ (view-pushed k o (s ∷ l) e h)
            (with_list-IsList o l (s ∷ l) t)),
      ap (λ n. (e.reply ++ integer (pos n)) ++ bulk s) (omega arith),
      view-after_pop k o₁ l e₁.store h₁ ∙ left_at-with_list o (s ∷ l) l,
    )

pop-empty :
    (e : Env) (d k : Bytes) (more : List Bytes) (o : YObject)
    → IsReady e.store
    → view e.store k ≡ some o
    → IsList o []
    → lpop (d ∷ k ∷ more) e ≡ fault
unfolding lpop
pop-empty e d k more o h v t =
    rw (get_value_by_type-IsReady e.store h k YType.list true, v, check_type-IsList o [] t, t.holds)

-- An LPUSH that has no value on a key without one makes an empty list, and an LPOP of it fails the
-- assertion that the list is not empty.
-- The selected key space is there (`IsReady`).
lpop-lpush_nothing :
    (e : Env) (c d k : Bytes) (more : List Bytes)
    → IsReady e.store
    → view e.store k ≡ none
    → (lpush (c ∷ k ∷ []) >>= λ _. lpop (d ∷ k ∷ more)) e ≡ fault
unfolding lpush push_all
lpop-lpush_nothing e c d k more h v =
    let h' = put_current-IsReady e.store h (assign k (new_list e.store k) (selected e.store)) in
    let e' = with_new_list k e in
    rw (push_list-new e c k [] head h v) (
      pop-empty (pushed k (new_list e.store k) [] e') d k more (with_list (new_list e.store k) [])
        (put_current-IsReady e'.store h' _) (view-pushed k (new_list e.store k) [] e' h')
        (with_list-IsList (new_list e.store k) [] [] (new_list-IsList e.store k)))
