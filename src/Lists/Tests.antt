-- ===== src/Lists/Tests.antt =====
-- Runs of the commands on lists.
use yedis.Prelude.{◌+◌, ◌≡◌, refl, some, [], ◌∷◌, ◌++◌, codes, arith}
use yedis.Prelude.Int.{pos, negsuc}
use yedis.Strtol.{skip_spaces, span_digits, detect_base, convert, signed, strtol, string_to_long}
use yedis.Outcome.{done}
use yedis.Format.{array, integer, bulk}
use yedis.Object.{YError, YObject}
use yedis.Exec.{Env, ◌>>=◌}
use yedis.Samples.{key, one, two, env_with, list_object, view-env_with}
use yedis.Store.Laws.{view}
use yedis.Lists.{lpush, lpop, lrange}
use yedis.Lists.Range.{get_range, adjust_index}
use yedis.Lists.Range.Slice.{selection, get_range-adjust_index}
use yedis.Lists.Reply.{IsList, slice, replying, lrange_lem}
use yedis.Lists.Pop.{left_at, lpop-lpush}

abbrev pair : YObject
pair = list_object (one ∷ two ∷ [])

abbrev pair_env : Env
pair_env = env_with pair

pair-IsList : IsList pair (one ∷ two ∷ [])
pair-IsList = record { of_type = refl; holds = refl }

reads_zero : string_to_long (codes "0") ≡ some (pos 0)
unfolding string_to_long strtol skip_spaces span_digits detect_base convert signed
reads_zero = refl

reads_minus_one : string_to_long (codes "-1") ≡ some (negsuc 0)
unfolding string_to_long strtol skip_spaces span_digits detect_base convert signed
reads_minus_one = refl

get_range-adjust_index_example :
    get_range (adjust_index (negsuc 4) (pos 9) 2) (one ∷ two ∷ [])
    ≡ done (selection (negsuc 4) (pos 9) 2)
get_range-adjust_index_example = get_range-adjust_index (negsuc 4) (pos 9) (one ∷ two ∷ [])

lrange_lem_example :
    lrange (codes "LRANGE" ∷ key ∷ codes "0" ∷ codes "-1" ∷ []) pair_env
    ≡ done (some YError.ok, replying (array (slice (pos 0) (negsuc 0) (one ∷ two ∷ []))) pair_env)
lrange_lem_example =
    lrange_lem pair_env (codes "LRANGE") key (codes "0") (codes "-1") [] pair (one ∷ two ∷ [])
      (pos 0) (negsuc 0) (omega arith) (view-env_with pair) pair-IsList reads_zero reads_minus_one

lpop-lpush_example :
    (e' : Env) × ((lpush (codes "LPUSH" ∷ key ∷ one ∷ []) >>= λ _. lpop (codes "LPOP" ∷ key ∷ []))
        pair_env
      ≡ done (some YError.ok, e'))
    × (e'.reply ≡ ([] ++ integer (pos (2 + 1))) ++ bulk one)
    × (view e'.store key ≡ left_at pair (one ∷ two ∷ []))
lpop-lpush_example =
    lpop-lpush pair_env (codes "LPUSH") (codes "LPOP") key one [] pair (one ∷ two ∷ [])
      (omega arith) (view-env_with pair) pair-IsList
