-- ===== src/SortedSets/Tests.antt =====
-- Runs of ZADD, with decimal scores.
use yedis.Prelude.{ℕ, ◌≡◌, refl, some, List, [], ◌∷◌, ◌++◌, Bytes, codes, arith}
use yedis.Prelude.Int.{pos}
use yedis.Prelude.Assoc.{find}
use yedis.Outcome.{done, fault}
use yedis.Format.{integer}
use yedis.Object.{YType, YEncode, YError, SortedSet, Value, YObject}
use yedis.Exec.{Env}
use yedis.Samples.{decimals, key, one, two, env_with, list_object, view-env_with}
use yedis.Store.Laws.{with_object}
use yedis.SortedSets.{zadd}
use yedis.SortedSets.Index.{IsConsistent}
use yedis.SortedSets.Laws.{IsSortedSet, Scored, spread, with_sorted_set, zadd_lem, zadd_other_type}

abbrev no_members : SortedSet
no_members = record { score2_members = []; member2_scores = [] }

abbrev ranking : YObject
ranking = record {
  type = YType.sorted_set;
  encoding = YEncode.sset;
  lru = 0;
  value = Value.sset no_members;
}

abbrev ranking_env : Env
ranking_env = env_with ranking

abbrev entries : List (Bytes × Bytes)
entries = (codes "2", one) ∷ (codes "2", two) ∷ (codes "3", one) ∷ []

no_members-IsConsistent : IsConsistent decimals no_members
unfolding find
no_members-IsConsistent x = refl

ranking-IsSortedSet : IsSortedSet decimals ranking no_members
ranking-IsSortedSet = record { of_type = refl; holds = refl; agrees = no_members-IsConsistent }

zadd_lem_example :
    (ss' : SortedSet) × (n : ℕ) × (zadd decimals (codes "ZADD" ∷ key ∷ spread entries) ranking_env
      ≡ done (
        some YError.ok,
        record {
          store = with_object key (with_sorted_set decimals ranking ss') ranking_env.store;
          reply = [] ++ integer (pos n);
        },
      ))
    × IsSortedSet decimals (with_sorted_set decimals ranking ss') ss'
    × Scored decimals entries no_members 0 ss' n
zadd_lem_example =
    zadd_lem decimals ranking_env (codes "ZADD") key entries ranking no_members (omega arith)
      (view-env_with ranking) ranking-IsSortedSet

zadd_other_type_example :
    zadd decimals (codes "ZADD" ∷ key ∷ spread entries) (env_with (list_object [])) ≡ fault
zadd_other_type_example =
    zadd_other_type decimals (env_with (list_object [])) (codes "ZADD") key entries (list_object [])
      (omega arith) (view-env_with (list_object [])) refl
