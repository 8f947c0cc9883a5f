-- ===== src/Sets/Random.antt =====
-- `randomHashMember` and SPOP.
use mathlib.Core.List.{Perm, Permᴰ, flatten}
use mathlib.Core.Logic.{∥∥₁_elim}
use mathlib.Core.Bool.{Bool-set}
use yedis.Prelude.{
  ℕ, zero, suc, ◌%◌, ◌<◌, ◌≡◌, ◌≢◌, refl, sym, ap, ◌∙◌, true, false, not, ◌&&◌, ◌||◌, some, List,
  [], ◌∷◌, ◌++◌, Bytes, length, arith, bytes_eq, bytes_eq_iff, bytes_eq_refl,
}
use yedis.Outcome.{Outcome, done, fault, out_of_fuel}
use yedis.Format.{bulk, format_bulk_lem}
use yedis.Object.{YType, YError, YObject}
use yedis.Store.{Store}
use yedis.Store.Laws.{
  IsReady, view, with_object, without_key, selected, get_value_by_type-IsReady,
  update_object-IsReady, delete_key-IsReady, put_current-IsReady,
}
use yedis.Exec.{Env}
use yedis.Prelude.Assoc.{assign}
use yedis.Sets.Laws.{IsSetList, IsSetObject, with_set, check_type-IsSetObject, contains-append}
use yedis.Sets.{
  HashTable, contains, erase_member, member_at, pick_in, bucket_at, choose, random_bucket, spop,
  spop_member,
}

-- What a draw may come to: a member of `l`, or no random numbers left.
abbrev Draws : List Bytes → Outcome Bytes → Type 0
Draws l (done m) = contains m l ≡ true
Draws l fault = ⊥
Draws l out_of_fuel = Unit

Draws-cons : (s : Bytes) (l : List Bytes) (o : Outcome Bytes) → Draws l o → Draws (s ∷ l) o
unfolding contains
Draws-cons s l (done x) h = ground arith
Draws-cons s l fault h = h
Draws-cons s l out_of_fuel h = tt

member_at-Draws : (l : List Bytes) (i : ℕ) → i < length l → Draws l (member_at l i)
unfolding contains
member_at-Draws [] i h = absurd (omega arith)
member_at-Draws (s ∷ l) zero h = ground (arith, bytes_eq_refl s)
member_at-Draws (s ∷ l) (suc i) h =
    Draws-cons s l (member_at l i) (member_at-Draws l i (omega arith))

Draws-append_left : (l m : List Bytes) (o : Outcome Bytes) → Draws l o → Draws (l ++ m) o
Draws-append_left l m (done x) h = contains-append x l m ∙ ap (λ b. b || contains x m) h
Draws-append_left l m fault h = h
Draws-append_left l m out_of_fuel h = tt

Draws-append_right : (l m : List Bytes) (o : Outcome Bytes) → Draws m o → Draws (l ++ m) o
Draws-append_right l m (done x) h = ground (arith, contains-append x l m)
Draws-append_right l m fault h = h
Draws-append_right l m out_of_fuel h = tt

pick_in-Draws : (s : Bytes) (b : List Bytes) (rs : List ℕ) → Draws (s ∷ b) (pick_in (s ∷ b) rs)
pick_in-Draws s b [] = tt
pick_in-Draws s b (r ∷ rs) = member_at-Draws (s ∷ b) (r % length (s ∷ b)) (omega arith)

bucket_at-Draws :
    (bs : List (List Bytes)) (i : ℕ) (o : Outcome Bytes)
    → Draws (bucket_at bs i) o
    → Draws (flatten bs) o
unfolding flatten
bucket_at-Draws [] i o h = h
bucket_at-Draws (b ∷ bs) zero o h = Draws-append_left b (flatten bs) o h
bucket_at-Draws (b ∷ bs) (suc i) o h =
    Draws-append_right b (flatten bs) o (bucket_at-Draws bs i o h)

choose-Draws :
    (b : List Bytes) (l : List Bytes) (rs : List ℕ) (again : Outcome Bytes)
    → ((o : Outcome Bytes) → Draws b o → Draws l o)
    → Draws l again
    → Draws l (choose b rs again)
choose-Draws [] l rs again f h = h
choose-Draws (s ∷ b) l rs again f h = f (pick_in (s ∷ b) rs) (pick_in-Draws s b rs)

random_bucket-Draws :
    (bs : List (List Bytes)) (rs : List ℕ) → Draws (flatten bs) (random_bucket bs rs)
unfolding random_bucket
random_bucket-Draws bs [] = tt
random_bucket-Draws bs (r ∷ rs) =
    choose-Draws (bucket_at bs (r % length bs)) (flatten bs) rs (random_bucket bs rs)
      (λ o h. bucket_at-Draws bs (r % length bs) o h) (random_bucket-Draws bs rs)

contains-permᴰ : (x : Bytes) {l m : List Bytes} → Permᴰ l m → contains x l ≡ contains x m
unfolding contains
contains-permᴰ x Permᴰ.nil = refl
contains-permᴰ x (Permᴰ.cons e p) = rw (e, contains-permᴰ x p)
contains-permᴰ x (Permᴰ.swap e f) = rw (e, f) (ground arith)
contains-permᴰ x (Permᴰ.trans p q) = contains-permᴰ x p ∙ contains-permᴰ x q

contains-perm : (x : Bytes) {l m : List Bytes} → Perm l m → contains x l ≡ contains x m
contains-perm x p = ∥∥₁_elim p (Bool-set _ _) (contains-permᴰ x)

Draws-done :
    (l : List Bytes) (o : Outcome Bytes) (m : Bytes) → Draws l o → o ≡ done m → contains m l ≡ true
Draws-done l (done x) m h e = ground arith
Draws-done l fault m h e = absurd h
Draws-done l out_of_fuel m h e = cc

-- Whatever the random numbers, a member that `randomHashMember` returns is one of the set.
random_bucket_sound :
    (table : HashTable) (l : List Bytes) (rs : List ℕ) (m : Bytes)
    → random_bucket (table.buckets l) rs ≡ done m
    → contains m l ≡ true
random_bucket_sound table l rs m e =
    sym (contains-perm m (table.buckets_perm l))
    ∙ Draws-done (flatten (table.buckets l)) (random_bucket (table.buckets l) rs) m
        (random_bucket-Draws (table.buckets l) rs) e

contains-erase_member :
    (m x : Bytes) (l : List Bytes)
    → IsSetList l
    → contains x (erase_member m l) ≡ (contains x l && not (bytes_eq m x))
unfolding contains erase_member
contains-erase_member m x [] h = refl
contains-erase_member m x (t ∷ l) (f, h) =
    let same : x ≡ t → contains x l ≡ false = λ e. rw e f in
    ground (
      arith,
      bytes_eq_iff t m,
      bytes_eq_iff t x,
      bytes_eq_iff m x,
      contains-erase_member m x l h,
      same,
    )

-- The store behind an SPOP that leaves the set `l`: an empty set goes with its key.
abbrev pub after_spop : Bytes → YObject → List Bytes → Store → Store
after_spop k o [] s = without_key k (with_object k (with_set o []) s)
after_spop k o (x ∷ l) s = with_object k (with_set o (x ∷ l)) s

spop_member-run :
    (table : HashTable) (e : Env) (k : Bytes) (o : YObject) (l left : List Bytes) (m : Bytes)
    → IsReady e.store
    → erase_member m l ≡ left
    → spop_member table k o l (some m) e
      ≡ done (
        some YError.ok,
        record { store = after_spop k o left e.store; reply = e.reply ++ bulk m },
      )
spop_member-run table e k o l [] m h q =
    let s' = with_object k (with_set o []) e.store in
    let h' = put_current-IsReady e.store h (assign k (with_set o []) (selected e.store)) in
    rw (
      format_bulk_lem m e.reply,
      q,
      update_object-IsReady e.store h k (with_set o []),
      delete_key-IsReady s' h' k,
    )
spop_member-run table e k o l (x ∷ left) m h q =
    rw (format_bulk_lem m e.reply, q, update_object-IsReady e.store h k (with_set o (x ∷ left)))

-- SPOP of a set that is not empty, whatever member `m` the random numbers draw: `m` is in the set
-- and is the reply, exactly `m` is removed, and an empty set goes with its key.
-- The selected key space is there (`IsReady`).
pub spop_lem :
    (table : HashTable) (rs : List ℕ) (e : Env) (c k : Bytes) (rest : List Bytes) (o : YObject)
    (s : Bytes) (l : List Bytes) (m : Bytes)
    → IsReady e.store
    → view e.store k ≡ some o
    → IsSetObject o (s ∷ l)
    → random_bucket (table.buckets (s ∷ l)) rs ≡ done m
    → (left : List Bytes) × (spop table rs (c ∷ k ∷ rest) e
        ≡ done (
          some YError.ok,
          record { store = after_spop k o left e.store; reply = e.reply ++ bulk m },
        ))
      × (contains m (s ∷ l) ≡ true)
      × ((x : Bytes) → contains x left ≡ (contains x (s ∷ l) && not (bytes_eq m x)))
unfolding spop
spop_lem table rs e c k rest o s l m h v t q = (
  erase_member m (s ∷ l),
  rw
      (
        get_value_by_type-IsReady e.store h k YType.set true,
        v,
        check_type-IsSetObject o (s ∷ l) t,
        t.holds,
        q,
      )
      (spop_member-run table e k o (s ∷ l) (erase_member m (s ∷ l)) m h refl),
  random_bucket_sound table (s ∷ l) rs m q,
  (λ x. contains-erase_member m x (s ∷ l) t.distinct),
)

member_at-ne : (l : List Bytes) (i : ℕ) → member_at l i ≢ out_of_fuel
member_at-ne [] i e = cc
member_at-ne (s ∷ l) zero e = cc
member_at-ne (s ∷ l) (suc i) e = member_at-ne l i e

choose-ne :
    (b : List Bytes) (r : ℕ) (rs : List ℕ) (again : Outcome Bytes)
    → b ≢ []
    → choose b (r ∷ rs) again ≢ out_of_fuel
choose-ne [] r rs again h = absurd (h refl)
choose-ne (s ∷ b) r rs again h = member_at-ne (s ∷ b) (r % length (s ∷ b))

choose-ne_again :
    (b : List Bytes) (rs : List ℕ) (again : Outcome Bytes)
    → rs ≢ []
    → again ≢ out_of_fuel
    → choose b rs again ≢ out_of_fuel
choose-ne_again [] rs again p h = h
choose-ne_again (s ∷ b) [] again p h = absurd (p refl)
choose-ne_again (s ∷ b) (r ∷ rs) again p h = member_at-ne (s ∷ b) (r % length (s ∷ b))

append-ne : (before : List ℕ) (r : ℕ) (rs : List ℕ) → before ++ r ∷ rs ≢ []
append-ne [] r rs e = cc
append-ne (q ∷ before) r rs e = cc

-- The loop of `randomHashMember` ends as soon as a random number falls on a bucket that is not
-- empty, if one more number follows it.
random_bucket_ends :
    (bs : List (List Bytes)) (before : List ℕ) (r r' : ℕ) (rs : List ℕ)
    → bucket_at bs (r % length bs) ≢ []
    → random_bucket bs (before ++ r ∷ r' ∷ rs) ≢ out_of_fuel
unfolding random_bucket
random_bucket_ends bs [] r r' rs h =
    choose-ne (bucket_at bs (r % length bs)) r' rs (random_bucket bs (r' ∷ rs)) h
random_bucket_ends bs (q ∷ before) r r' rs h =
    choose-ne_again (bucket_at bs (q % length bs)) (before ++ r ∷ r' ∷ rs)
      (random_bucket bs (before ++ r ∷ r' ∷ rs)) (append-ne before r (r' ∷ rs))
      (random_bucket_ends bs before r r' rs h)
