-- ===== src/Sets/Laws.antt =====
-- What a client sees of SADD, SCARD and SMEMBERS.
use mathlib.Core.List.{Perm}
use mathlib.Core.Bool.{or_assoc}
use yedis.Prelude.{
  ℕ, ◌+◌, ◌≡◌, refl, sym, ap, ◌∙◌, true, false, some, List, [], ◌∷◌, ◌++◌, append_assoc, append-nil,
  Bytes, length, length-append, length-perm, if◌then◌else◌, Bool-cases, inl, inr, ◌||◌, arith,
  bytes_eq, bytes_eq_iff,
}
use yedis.Prelude.Int.{pos}
use yedis.Outcome.{done}
use yedis.Format.{
  array, bulks, array_header, integer, bulk, format_int_lem, format_bulk_lem,
  pre_format_multi_bulk_lem,
}
use yedis.Object.{YType, YError, Value, YObject}
use yedis.Store.{Lookup, check_type}
use yedis.Store.Laws.{IsReady, view, with_object, get_value_by_type-IsReady, update_object-IsReady}
use yedis.Exec.{Env}
use yedis.Sets.{HashTable, contains, insert_all, sadd, send_members, smember}

-- The members of a set are different from one another.
abbrev pub IsSetList : List Bytes → Type 0
IsSetList [] = Unit
IsSetList (s ∷ l) = (contains s l ≡ false) × IsSetList l

pub contains-append :
    (s : Bytes) (l m : List Bytes) → contains s (l ++ m) ≡ (contains s l || contains s m)
unfolding contains
contains-append s [] m = refl
contains-append s (t ∷ l) m = ground (arith, contains-append s l m)

IsSetList-append_one :
    (s : Bytes) (l : List Bytes) → IsSetList l → contains s l ≡ false → IsSetList (l ++ s ∷ [])
unfolding contains
IsSetList-append_one s [] h q = (refl, tt)
IsSetList-append_one s (t ∷ l) (f, h) q = (
  ground (arith, contains-append t l (s ∷ []), bytes_eq_iff s t, bytes_eq_iff t s),
  IsSetList-append_one s l h (ground arith),
)

-- SADD keeps the members different.
insert_all-IsSetList :
    (values l : List Bytes) (n : ℕ) → IsSetList l → IsSetList (insert_all values l n).0
unfolding insert_all
insert_all-IsSetList [] l n h = h
insert_all-IsSetList (s ∷ values) l n h = elim (Bool-cases (contains s l)) [
  | inl q ↦ rw (q, insert_all) (insert_all-IsSetList values l n h)
  | inr q ↦
      rw (q, insert_all)
        (insert_all-IsSetList values (l ++ s ∷ []) (n + 1) (IsSetList-append_one s l h q))
]

contains-insert_one :
    (x s : Bytes) (l : List Bytes)
    → contains x (if contains s l then l else l ++ s ∷ []) ≡ (contains x l || bytes_eq s x)
unfolding contains
contains-insert_one x s l = elim (Bool-cases (contains s l)) [
  | inl q ↦ elim (Bool-cases (bytes_eq s x)) [
    | inl r ↦ let e : s ≡ x = (bytes_eq_iff s x).0 r in rw (q, r, ← e, q)
    | inr r ↦ rw (q, r) (ground arith)
  ]
  | inr q ↦ rw (q, contains-append x l (s ∷ [])) (ground arith)
]

-- Behind SADD the set has the old members and the values, and no others.
pub contains-insert_all :
    (x : Bytes) (values l : List Bytes) (n : ℕ)
    → contains x (insert_all values l n).0 ≡ (contains x l || contains x values)
unfolding insert_all contains
contains-insert_all x [] l n = ground arith
contains-insert_all x (s ∷ values) l n =
    contains-insert_all x values (if contains s l then l else l ++ s ∷ [])
      (if contains s l then n else n + 1)
    ∙ ap (λ b. b || contains x values) (contains-insert_one x s l)
    ∙ or_assoc (contains x l) (bytes_eq s x) (contains x values)

-- The number of new members is the growth of the set.
length-insert_all :
    (values l : List Bytes) (n : ℕ)
    → length (insert_all values l n).0 + n ≡ length l + (insert_all values l n).1
unfolding insert_all
length-insert_all [] l n = omega arith
length-insert_all (s ∷ values) l n = elim (Bool-cases (contains s l)) [
  | inl q ↦ rw (q, insert_all) (length-insert_all values l n)
  | inr q ↦
      rw (q, insert_all)
        (omega (arith, length-insert_all values (l ++ s ∷ []) (n + 1), length-append l (s ∷ [])))
]

-- The object at a key is the set `l`.
pub record IsSetObject (o : YObject) (l : List Bytes) : Type 0 where
  pub of_type : o.type ≡ YType.set
  pub holds : o.value ≡ Value.set l
  pub distinct : IsSetList l

abbrev pub with_set : YObject → List Bytes → YObject
with_set o l = record o { value = Value.set l }

pub check_type-IsSetObject :
    (o : YObject) (l : List Bytes) → IsSetObject o l → check_type YType.set (some o) ≡ Lookup.ok o
check_type-IsSetObject o l h = rw (check_type, h.of_type)

-- SADD on a set `l` leaves at the key a set of different members, those of `l` and the values and no
-- others, and answers with the number by which the set has grown.
-- The selected key space is there (`IsReady`).
pub sadd_lem :
    (e : Env) (c k : Bytes) (values : List Bytes) (o : YObject) (l : List Bytes)
    → IsReady e.store
    → view e.store k ≡ some o
    → IsSetObject o l
    → (l' : List Bytes) × (n : ℕ) × (sadd (c ∷ k ∷ values) e
        ≡ done (
          some YError.ok,
          record {
            store = with_object k (with_set o l') e.store;
            reply = e.reply ++ integer (pos n);
          },
        ))
      × IsSetObject (with_set o l') l'
      × ((x : Bytes) → contains x l' ≡ (contains x l || contains x values))
      × (length l' ≡ length l + n)
unfolding sadd
sadd_lem e c k values o l h v t =
    let (l', n) = insert_all values l 0 in
    (
      l',
      n,
      rw (
        get_value_by_type-IsReady e.store h k YType.set true,
        v,
        check_type-IsSetObject o l t,
        t.holds,
        update_object-IsReady e.store h k (with_set o l'),
        format_int_lem (pos n) e.reply,
      ),
      record {
        of_type = t.of_type;
        holds = refl;
        distinct = insert_all-IsSetList values l 0 t.distinct;
      },
      (λ x. contains-insert_all x values l 0),
      omega (arith, length-insert_all values l 0),
    )

send_members_lem :
    (l : List Bytes) (e : Env)
    → send_members l e ≡ done (tt, record e { reply = e.reply ++ bulks l })
unfolding send_members
send_members_lem [] e = ap (λ r. done (tt, record e { reply = r })) (sym (append-nil e.reply))
send_members_lem (s ∷ l) e = rw (
  format_bulk_lem s e.reply,
  send_members_lem l (record e { reply = e.reply ++ bulk s }),
  append_assoc e.reply (bulk s) (bulks l),
)

-- SMEMBERS answers with an array of the members, in the order of the table, and leaves the store as
-- it is; the header announces as many as the order has.
-- The selected key space is there (`IsReady`).
smember_lem :
    (table : HashTable) (e : Env) (c k : Bytes) (rest : List Bytes) (o : YObject) (l : List Bytes)
    → IsReady e.store
    → view e.store k ≡ some o
    → IsSetObject o l
    → (smember table (c ∷ k ∷ rest) e
        ≡ done (some YError.ok, record e { reply = e.reply ++ array (table.order l) }))
      × Perm (table.order l) l
unfolding smember
smember_lem table e c k rest o l h v t = (
  rw (
    get_value_by_type-IsReady e.store h k YType.set true,
    v,
    check_type-IsSetObject o l t,
    t.holds,
    pre_format_multi_bulk_lem (length l) e.reply,
    send_members_lem (table.order l) (record e { reply = e.reply ++ array_header (length l) }),
    append_assoc e.reply (array_header (length l)) (bulks (table.order l)),
    length-perm (table.order_perm l),
  ),
  table.order_perm l,
)
