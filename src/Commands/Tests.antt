-- ===== src/Commands/Tests.antt =====
-- Runs of the dispatch.
use yedis.Prelude.{ℕ, List, Bytes, [], ◌∷◌, codes}
use yedis.Samples.{one_bucket, decimals}
use yedis.Exec.{Env}
use yedis.Typed.{Typed, OutcomeAll}
use yedis.Commands.{prepare}
use yedis.Commands.Typed.{no_store, exec_all, exec_all-Typed}

abbrev requests : List (List ℕ × List Bytes)
requests =
    ([], codes "set" ∷ codes "a" ∷ codes "12" ∷ [])
    ∷ ([], codes "LPUSH" ∷ codes "a" ∷ codes "x" ∷ [])
    ∷ ([], codes "HSET" ∷ codes "h" ∷ codes "f" ∷ codes "v" ∷ [])
    ∷ []

exec_all-Typed_example :
    OutcomeAll
      (λ (e : Env). Typed e.store)
      (exec_all one_bucket decimals requests (record { store = prepare (no_store 7); reply = [] }))
exec_all-Typed_example = exec_all-Typed one_bucket decimals requests 7 []
