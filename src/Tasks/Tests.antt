-- ===== src/Tasks/Tests.antt =====
-- Runs of the queue, with a table that has no commands.
use yedis.Prelude.{◌≡◌, false, ◌⊎◌, refl, some, [], ◌∷◌, ◌++◌, codes, replicate, arith}
use yedis.Outcome.{done}
use yedis.Format.{array}
use yedis.Decimal.{print_nat}
use yedis.Samples.{one, empty_env}
use yedis.Prelude.{true, crlf, bytes_eq}
use yedis.Prelude.Assoc.{find}
use yedis.Exec.{Env}
use yedis.Commands.{Commands, exec_command, get_command, command}
use yedis.Tasks.{Task, Tasks, producer, consumer, on_read, Steps}
use yedis.Tasks.Signals.{Threads, all_awake, produce_or_sleep, Turns, Alert, Turns-all_awake}
use yedis.Tasks.Order.{InOrder, history, conns, Steps-InOrder, request_served}

abbrev task : Task
task = record { conn = some 4; vec_cmd = one ∷ [] }

abbrev idle : Tasks
idle = record { deque = []; store = empty_env.store; sent = [] }

abbrev busy : Tasks
busy = record { deque = task ∷ []; store = empty_env.store; sent = [] }

abbrev full : Tasks
full = record { deque = replicate 30 task; store = empty_env.store; sent = [] }

produced : producer task idle ≡ some busy
unfolding producer
produced = refl

Steps-InOrder_example : InOrder (history idle ++ conns ([] ++ task ∷ [])) busy
Steps-InOrder_example =
    Steps-InOrder ([] ++ task ∷ []) idle busy
      (Steps.produce [] task idle idle busy (Steps.stay idle) produced) (omega arith)

-- A producer finds the queue full and sleeps.
abbrev pushed_out : Threads
pushed_out = produce_or_sleep task (all_awake full)

Turns-all_awake_example :
    Alert pushed_out × ((pushed_out.asleep ≡ false) ⊎ (pushed_out.blocked ≡ []))
Turns-all_awake_example =
    Turns-all_awake full pushed_out
      (Turns.offers task (all_awake full) (all_awake full) (Turns.stays (all_awake full)))

abbrev greeting : Commands
greeting = (codes "COMMAND", command) ∷ []

abbrev greeted : Env
greeted = record { store = empty_env.store; reply = codes "+OK" ++ crlf }

exec-greeting :
    exec_command greeting (codes "COMMAND" ∷ []) (record { store = empty_env.store; reply = [] })
    ≡ done (true, greeted)
unfolding exec_command get_command command find bytes_eq
exec-greeting = refl

request_served_example :
    (s' : Tasks) × (on_read (some 4) (array (codes "COMMAND" ∷ []) ++ []) idle ≡ done (some s'))
    × (consumer greeting s'
        ≡ done (
            some
              (record { deque = []; store = greeted.store; sent = [] ++ (4, greeted.reply) ∷ [] })))
unfolding print_nat
request_served_example =
    request_served greeting 4 (codes "COMMAND" ∷ []) [] idle true greeted (omega arith) refl
      exec-greeting
