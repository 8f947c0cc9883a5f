-- ===== src/Sets/Tests.antt =====
-- Runs of the commands on sets, with a table of one bucket.
use yedis.Prelude.{
  ℕ, ◌+◌, ◌≡◌, refl, true, not, ◌&&◌, ◌||◌, some, List, [], ◌∷◌, ◌++◌, Bytes, codes, arith, length,
  bytes_eq,
}
use yedis.Prelude.Int.{pos}
use yedis.Outcome.{done}
use yedis.Format.{integer, bulk}
use yedis.Object.{YError, YObject}
use yedis.Exec.{Env}
use yedis.Samples.{one_bucket, key, one, two, env_with, set_object, view-env_with}
use yedis.Store.Laws.{with_object}
use yedis.Sets.{contains, sadd, spop, random_bucket}
use yedis.Sets.Laws.{IsSetObject, with_set, sadd_lem}
use yedis.Sets.Random.{after_spop, spop_lem}

abbrev both : YObject
both = set_object (one ∷ two ∷ [])

abbrev both_env : Env
both_env = env_with both

both-IsSetObject : IsSetObject both (one ∷ two ∷ [])
unfolding contains bytes_eq
both-IsSetObject = record { of_type = refl; holds = refl; distinct = (refl, (refl, tt)) }

draws_two : random_bucket ((one ∷ two ∷ []) ∷ []) (5 ∷ 7 ∷ []) ≡ done two
unfolding random_bucket
draws_two = refl

sadd_lem_example :
    (l' : List Bytes) × (n : ℕ) × (sadd (codes "SADD" ∷ key ∷ one ∷ key ∷ []) both_env
      ≡ done (
        some YError.ok,
        record {
          store = with_object key (with_set both l') both_env.store;
          reply = [] ++ integer (pos n);
        },
      ))
    × IsSetObject (with_set both l') l'
    × ((x : Bytes) → contains x l' ≡ (contains x (one ∷ two ∷ []) || contains x (one ∷ key ∷ [])))
    × (length l' ≡ 2 + n)
sadd_lem_example =
    sadd_lem both_env (codes "SADD") key (one ∷ key ∷ []) both (one ∷ two ∷ []) (omega arith)
      (view-env_with both) both-IsSetObject

spop_lem_example :
    (left : List Bytes) × (spop one_bucket (5 ∷ 7 ∷ []) (codes "SPOP" ∷ key ∷ []) both_env
      ≡ done (
        some YError.ok,
        record { store = after_spop key both left both_env.store; reply = [] ++ bulk two },
      ))
    × (contains two (one ∷ two ∷ []) ≡ true)
    × ((x : Bytes) → contains x left ≡ (contains x (one ∷ two ∷ []) && not (bytes_eq two x)))
spop_lem_example =
    spop_lem one_bucket (5 ∷ 7 ∷ []) both_env (codes "SPOP") key [] both one (two ∷ []) two
      (omega arith) (view-env_with both) both-IsSetObject draws_two
