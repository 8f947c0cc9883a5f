-- ===== src/SortedSets/Laws.antt =====
-- What a client sees of ZADD.
use yedis.Prelude.{
  ℕ, ◌+◌, ◌%◌, ◌≡◌, refl, ap, sym, subst, ◌≢◌, ◌∙◌, true, false, Option, none, some, List, [], ◌∷◌,
  ◌++◌, Bytes, length, ◌==◌, if◌then◌else◌, Bool-cases, Option-cases, inl, inr, arith, bytes_eq,
  bytes_eq_iff,
}
use yedis.Prelude.Int.{pos}
use yedis.Prelude.Assoc.{Assoc, find, assign, find-assign}
use yedis.Outcome.{done, fault}
use yedis.Format.{integer, format_int_lem}
use yedis.Object.{YType, YError, SortedSet, Value, YObject}
use yedis.Store.{Lookup, check_type, type_eq}
use yedis.Store.Laws.{IsReady, view, with_object, get_value_by_type-IsReady, update_object-IsReady}
use yedis.Exec.{Env, after}
use yedis.SortedSets.{Doubles, added, add_if_absent, add_member, zadd_one, zadd_all, zadd}
use yedis.SortedSets.Index.{IsConsistent, added-IsConsistent}

-- Pairs of a score and a member, as they stand in a request.
abbrev pub spread : List (Bytes × Bytes) → List Bytes
spread [] = []
spread ((score, member) ∷ l) = score ∷ member ∷ spread l

even-spread : (c k : Bytes) (l : List (Bytes × Bytes)) → (length (c ∷ k ∷ spread l) % 2 == 0) ≡ true
even-spread c k [] = refl
even-spread c k (p ∷ l) = ground (arith, even-spread c k l)

length-assign :
    {V : Type 0} (k : Bytes) (v : V) (m : Assoc V)
    → find k m ≡ none
    → length (assign k v m) ≡ length m + 1
unfolding find assign
length-assign k v [] h = refl
length-assign k v ((j, w) ∷ m) h = ground (arith, length-assign k v m)

module _ (doubles : Doubles) where
  -- The score of a member behind ZADD: the one that it had, or that of its first pair.
  abbrev pub score_of : Bytes → List (Bytes × Bytes) → Option ℕ → Option ℕ
  score_of x l (some s) = some s
  score_of x [] none = none
  score_of x ((score, member) ∷ l) none =
      if bytes_eq member x then some (doubles.atof score) else score_of x l none

  -- What the loop of ZADD leaves.
  pub record Scored (l : List (Bytes × Bytes)) (ss : SortedSet) (n : ℕ) (ss' : SortedSet) (n' : ℕ)
      : Type 0 where
    pub consistent : IsConsistent doubles ss'
    pub scores : (x : Bytes) → find x ss'.member2_scores ≡ score_of x l (find x ss.member2_scores)
    pub growth : length ss'.member2_scores + n ≡ length ss.member2_scores + n'

  add_member-absent :
      (e : Env) (member : Bytes) (score : ℕ) (ss : SortedSet)
      → find member ss.member2_scores ≡ none
      → add_member doubles member score ss e ≡ done (added doubles member score ss, e)
  unfolding add_member
  add_member-absent e member score ss h = ap (λ o. add_if_absent doubles member score ss o e) h

  zadd_one-absent :
      (e : Env) (member : Bytes) (score : ℕ) (ss : SortedSet) (n : ℕ)
      → find member ss.member2_scores ≡ none
      → zadd_one doubles member score (ss, n) (find member ss.member2_scores) e
        ≡ done ((added doubles member score ss, n + 1), e)
  zadd_one-absent e member score ss n h = rw (h, add_member-absent e member score ss h) refl

  score_of-nil : (x : Bytes) (o : Option ℕ) → score_of x [] o ≡ o
  score_of-nil x none = refl
  score_of-nil x (some s) = refl

  score_of-new :
      (x score member : Bytes) (l : List (Bytes × Bytes)) (o : Option ℕ)
      → (bytes_eq member x ≡ true → o ≡ none)
      → score_of x l (if bytes_eq member x then some (doubles.atof score) else o)
        ≡ score_of x ((score, member) ∷ l) o
  score_of-new x score member l none h = elim (Bool-cases (bytes_eq member x)) [
    | inl e ↦ rw (e, if◌then◌else◌)
    | inr e ↦ rw (e, if◌then◌else◌)
  ]
  score_of-new x score member l (some s) h = elim (Bool-cases (bytes_eq member x)) [
    | inl e ↦ let k = h e in cc
    | inr e ↦ rw (e, if◌then◌else◌)
  ]

  score_of-old :
      (x score member : Bytes) (l : List (Bytes × Bytes)) (o : Option ℕ)
      → (bytes_eq member x ≡ true → o ≢ none)
      → score_of x l o ≡ score_of x ((score, member) ∷ l) o
  score_of-old x score member l none h = elim (Bool-cases (bytes_eq member x)) [
    | inl e ↦ absurd (h e refl)
    | inr e ↦ rw (e, if◌then◌else◌)
  ]
  score_of-old x score member l (some s) h = refl

  same_member :
      (m x : Bytes) (ss : SortedSet) (o : Option ℕ)
      → bytes_eq m x ≡ true
      → find m ss.member2_scores ≡ o
      → find x ss.member2_scores ≡ o
  same_member m x ss o e q = subst (λ y. find y ss.member2_scores ≡ o) ((bytes_eq_iff m x).0 e) q

  zadd_all_lem :
      (l : List (Bytes × Bytes)) (ss : SortedSet) (n : ℕ) (e : Env)
      → IsConsistent doubles ss
      → (ss' : SortedSet) × (n' : ℕ) × (zadd_all doubles (spread l) (ss, n) e ≡ done ((ss', n'), e))
        × Scored l ss n ss' n'
  unfolding zadd_all
  zadd_all_lem [] ss n e h = (
    ss,
    n,
    refl,
    record {
      consistent = h;
      scores = λ x. sym (score_of-nil x (find x ss.member2_scores));
      growth = refl;
    },
  )
  zadd_all_lem ((score, member) ∷ l) ss n e h =
      elim (Option-cases (find member ss.member2_scores)) [
        | inl q ↦
            let (ss', n', run, end) =
              zadd_all_lem l (added doubles member (doubles.atof score) ss) (n + 1) e
                (added-IsConsistent doubles ss member (doubles.atof score) h q) in
            (
              ss',
              n',
              ap (after (zadd_all doubles (spread l)))
                    (zadd_one-absent e member (doubles.atof score) ss n q)
                  ∙ run,
              record {
                consistent = end.consistent;
                scores = λ x.
                    end.scores x
                    ∙ ap (score_of x l)
                        (find-assign member x (doubles.atof score) ss.member2_scores)
                    ∙ score_of-new x score member l (find x ss.member2_scores)
                        (λ t. same_member member x ss none t q);
                growth = omega (
                  arith,
                  end.growth,
                  length-assign member (doubles.atof score) ss.member2_scores q,
                );
              },
            )
        | inr (s, q) ↦
            let (ss', n', run, end) = zadd_all_lem l ss n e h in
            (
              ss',
              n',
              ap
                    (λ o.
                      after (zadd_all doubles (spread l))
                        (zadd_one doubles member (doubles.atof score) (ss, n) o e))
                    q
                  ∙ run,
              record {
                consistent = end.consistent;
                scores = λ x.
                    end.scores x
                    ∙ score_of-old x score member l (find x ss.member2_scores)
                        (λ t z. let k = same_member member x ss (some s) t q in cc);
                growth = end.growth;
              },
            )
      ]

  -- The object at a key is the sorted set `ss`, whose indices agree.
  pub record IsSortedSet (o : YObject) (ss : SortedSet) : Type 0 where
    pub of_type : o.type ≡ YType.sorted_set
    pub holds : o.value ≡ Value.sset ss
    pub agrees : IsConsistent doubles ss

  abbrev pub with_sorted_set : YObject → SortedSet → YObject
  with_sorted_set o ss = record o { value = Value.sset ss }

  check_type-IsSortedSet :
      (o : YObject) (ss : SortedSet)
      → IsSortedSet o ss
      → check_type YType.sorted_set (some o) ≡ Lookup.ok o
  check_type-IsSortedSet o ss h = rw (check_type, h.of_type)

  -- ZADD on a sorted set whose indices agree leaves one whose indices agree. A member that was there
  -- keeps its score, a new one has the score of its first pair, there are no others, and the reply is
  -- the number of new members.
  -- The selected key space is there (`IsReady`).
  pub zadd_lem :
      (e : Env) (c k : Bytes) (l : List (Bytes × Bytes)) (o : YObject) (ss : SortedSet)
      → IsReady e.store
      → view e.store k ≡ some o
      → IsSortedSet o ss
      → (ss' : SortedSet) × (n : ℕ) × (zadd doubles (c ∷ k ∷ spread l) e
          ≡ done (
            some YError.ok,
            record {
              store = with_object k (with_sorted_set o ss') e.store;
              reply = e.reply ++ integer (pos n);
            },
          ))
        × IsSortedSet (with_sorted_set o ss') ss'
        × Scored l ss 0 ss' n
  unfolding zadd
  zadd_lem e c k l o ss h v t =
      let (ss', n, run, end) = zadd_all_lem l ss 0 e t.agrees in
      (
        ss',
        n,
        rw
            (
              even-spread c k l,
              get_value_by_type-IsReady e.store h k YType.sorted_set true,
              v,
              check_type-IsSortedSet o ss t,
              t.holds,
              run,
              update_object-IsReady e.store h k (with_sorted_set o ss'),
              format_int_lem (pos n) e.reply,
            )
            refl,
        record { of_type = t.of_type; holds = refl; agrees = end.consistent },
        end,
      )

  -- ZADD on a key of another type reads the value through the null pointer that it was given.
  -- The selected key space is there (`IsReady`).
  pub zadd_other_type :
      (e : Env) (c k : Bytes) (l : List (Bytes × Bytes)) (o : YObject)
      → IsReady e.store
      → view e.store k ≡ some o
      → type_eq YType.sorted_set o.type ≡ false
      → zadd doubles (c ∷ k ∷ spread l) e ≡ fault
  unfolding zadd
  zadd_other_type e c k l o h v t =
      rw
        (
          even-spread c k l,
          get_value_by_type-IsReady e.store h k YType.sorted_set true,
          v,
          check_type,
          t,
        )
        refl
