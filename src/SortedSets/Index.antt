-- ===== src/SortedSets/Index.antt =====
-- The two indices of a sorted set agree, and adding members keeps it so.
use yedis.Prelude.{
  ℕ, ◌+◌, ◌≡◌, refl, ap, subst, ◌∙◌, Bool, true, false, not, ◌&&◌, ◌||◌, Option, none, some, List,
  [], ◌∷◌, Bytes, Bool-cases, inl, inr, arith, bytes_eq, bytes_eq_refl, bytes_eq_iff,
}
use yedis.Prelude.Assoc.{find, find-assign}
use yedis.Object.{SortedSet}
use yedis.Sets.{contains}
use yedis.SortedSets.{Doubles, bytes_lt, insert_member, insert_score, added}

bytes_lt-tri : (s t : Bytes) → bytes_lt t s ≡ false → bytes_lt s t ≡ false → s ≡ t
unfolding bytes_lt
bytes_lt-tri [] [] p q = refl
bytes_lt-tri [] (d ∷ t) p q = ground arith
bytes_lt-tri (c ∷ s) [] p q = ground arith
bytes_lt-tri (c ∷ s) (d ∷ t) p q = ground (arith, bytes_lt-tri s t)

-- Inserting into a bucket adds the member, whatever the order.
contains-insert_member :
    (x s : Bytes) (l : List Bytes) → contains x (insert_member s l) ≡ (bytes_eq s x || contains x l)
unfolding contains insert_member
contains-insert_member x s [] = ground arith
contains-insert_member x s (t ∷ l) = ground (arith, contains-insert_member x s l, bytes_lt-tri s t)

-- In how many buckets a member is.
abbrev pub one_if : Bool → ℕ
one_if true = 1
one_if false = 0

abbrev pub Buckets : Type 0
Buckets = List (ℕ × List Bytes)

abbrev pub places : Bytes → Buckets → ℕ
places x [] = 0
places x ((t, ms) ∷ l) = one_if (contains x ms) + places x l

module _ (doubles : Doubles) where
  -- Neither score is less than the other.
  abbrev pub same_score : ℕ → ℕ → Bool
  same_score a b = not (doubles.lt a b) && not (doubles.lt b a)

  -- Whether a member is in a bucket of this score.
  abbrev pub listed : Bytes → ℕ → Buckets → Bool
  listed x s [] = false
  listed x s ((t, ms) ∷ l) = same_score s t && contains x ms || listed x s l

  one_place :
      (x m : Bytes) (ms : List Bytes)
      → bytes_eq m x ≡ false
      → contains x (insert_member m ms) ≡ contains x ms
  one_place x m ms h = contains-insert_member x m ms ∙ ap (λ b. b || contains x ms) h

  its_place : (m : Bytes) (ms : List Bytes) → contains m (insert_member m ms) ≡ true
  its_place m ms = contains-insert_member m m ms ∙ ap (λ b. b || contains m ms) (bytes_eq_refl m)

  places-insert_score_ne :
      (x m : Bytes) (s : ℕ) (l : Buckets)
      → bytes_eq m x ≡ false
      → places x (insert_score doubles s m l) ≡ places x l
  unfolding insert_score contains
  places-insert_score_ne x m s [] h = rw (one_place x m [] h) refl
  places-insert_score_ne x m s ((t, ms) ∷ l) h =
      ground (arith, places-insert_score_ne x m s l h, one_place x m [] h, one_place x m ms h)

  listed-insert_score_ne :
      (x m : Bytes) (s u : ℕ) (l : Buckets)
      → bytes_eq m x ≡ false
      → listed x u (insert_score doubles s m l) ≡ listed x u l
  unfolding insert_score contains
  listed-insert_score_ne x m s u [] h = rw (one_place x m [] h) (ground arith)
  listed-insert_score_ne x m s u ((t, ms) ∷ l) h =
      ground (arith, listed-insert_score_ne x m s u l h, one_place x m [] h, one_place x m ms h)

  places-insert_score_self :
      (m : Bytes) (s : ℕ) (l : Buckets) → places m l ≡ 0 → places m (insert_score doubles s m l) ≡ 1
  unfolding insert_score
  places-insert_score_self m s [] h = ap (λ b. one_if b + 0) (its_place m [])
  places-insert_score_self m s ((t, ms) ∷ l) h =
      ground (arith, places-insert_score_self m s l, its_place m [], its_place m ms)

  listed-insert_score_self :
      (m : Bytes) (s : ℕ) (l : Buckets) → listed m s (insert_score doubles s m l) ≡ true
  unfolding insert_score
  listed-insert_score_self m s [] = ground (arith, doubles.lt_irrefl s, its_place m [])
  listed-insert_score_self m s ((t, ms) ∷ l) =
      ground
        (arith, listed-insert_score_self m s l, its_place m [], its_place m ms, doubles.lt_irrefl s)

  -- A member with a score is in exactly one bucket, of that score; another is in none.
  abbrev pub Entry : Bytes → Buckets → Option ℕ → Type 0
  Entry x l none = places x l ≡ 0
  Entry x l (some s) = (places x l ≡ 1) × (listed x s l ≡ true)

  abbrev pub IsConsistent : SortedSet → Type 0
  IsConsistent ss = (x : Bytes) → Entry x ss.score2_members (find x ss.member2_scores)

  Entry-insert_score_ne :
      (x m : Bytes) (s : ℕ) (l : Buckets) (o : Option ℕ)
      → bytes_eq m x ≡ false
      → Entry x l o
      → Entry x (insert_score doubles s m l) o
  Entry-insert_score_ne x m s l none h e = places-insert_score_ne x m s l h ∙ e
  Entry-insert_score_ne x m s l (some u) h (p, q) =
      (places-insert_score_ne x m s l h ∙ p, listed-insert_score_ne x m s u l h ∙ q)

  Entry-insert_score_self :
      (m : Bytes) (s : ℕ) (l : Buckets)
      → Entry m l none
      → Entry m (insert_score doubles s m l) (some s)
  Entry-insert_score_self m s l e =
      (places-insert_score_self m s l e, listed-insert_score_self m s l)

  -- `addMember` of a new member keeps the indices in agreement.
  pub added-IsConsistent :
      (ss : SortedSet) (m : Bytes) (s : ℕ)
      → IsConsistent ss
      → find m ss.member2_scores ≡ none
      → IsConsistent (added doubles m s ss)
  added-IsConsistent ss m s h q x = elim (Bool-cases (bytes_eq m x)) [
    | inl e ↦
        rw (find-assign m x s ss.member2_scores, e, ← (bytes_eq_iff m x).0 e)
          (Entry-insert_score_self m s ss.score2_members
            (subst (λ o. Entry m ss.score2_members o) q (h m)))
    | inr e ↦
        rw (find-assign m x s ss.member2_scores, e)
          (Entry-insert_score_ne x m s ss.score2_members (find x ss.member2_scores) e (h x))
  ]
