-- ===== src/Hashes/Tests.antt =====
-- Runs of HSET and HGET.
use yedis.Prelude.{
  ◌≡◌, refl, some, List, [], ◌∷◌, ◌++◌, Bytes, codes, arith, bytes_eq, if◌then◌else◌,
}
use yedis.Prelude.Assoc.{find, assign}
use yedis.Exec.{◌>>=◌}
use yedis.Samples.{key, field, one, two, env_with, hash_object, view-env_with}
use yedis.Hashes.{hset, hget}
use yedis.Hashes.Laws.{with_hash, field_text, hget-hset}
use yedis.Prelude.Int.{pos}
use yedis.Outcome.{done}
use yedis.Format.{integer}
use yedis.Object.{YError}
use yedis.Store.Laws.{with_object}

abbrev ages : List (Bytes × Bytes)
ages = (field, one) ∷ []

hget-hset_example :
    (hset (codes "HSET" ∷ key ∷ field ∷ two ∷ []) >>= λ _. hget (codes "HGET" ∷ key ∷ one ∷ []))
      (env_with (hash_object ages))
    ≡ done (
      some YError.ok,
      record {
        store =
            with_object key
              (with_hash (hash_object ages) (assign field two ages))
              (env_with (hash_object ages)).store;
        reply =
            ((env_with (hash_object ages)).reply ++ integer (pos 1))
            ++ field_text (if bytes_eq field one then some two else find one ages);
      },
    )
hget-hset_example =
    hget-hset (env_with (hash_object ages)) (codes "HSET") (codes "HGET") key field one two [] []
      (hash_object ages) ages (omega arith) (view-env_with (hash_object ages))
      (record { of_type = refl; holds = refl })
