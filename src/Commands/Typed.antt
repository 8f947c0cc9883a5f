-- ===== src/Commands/Typed.antt =====
-- The commands that are registered (src/YedisRegisterCmd.cpp), run one behind the other on a new store,
-- leave every object with the type of its value.
use yedis.Prelude.{ℕ, Bool, true, false, Option, none, some, List, [], ◌∷◌, Bytes, codes, bytes_eq}
use yedis.Prelude.Assoc.{Assoc, find}
use yedis.Outcome
use yedis.Outcome.{Outcome, done, fault, out_of_fuel}
use yedis.Store
use yedis.Store.{Store}
use yedis.Format.{Reply}
use yedis.Exec.{Env, Params, Handler}
use yedis.Strings.Typed.{set_cmd-Keeps, get_cmd-Keeps, setnx_cmd-Keeps}
use yedis.Lists.Typed.{
  lpush-Keeps, rpush-Keeps, lpushx-Keeps, rpushx-Keeps, lpop-Keeps, rpop-Keeps, llen-Keeps,
  lrange-Keeps,
}
use yedis.Hashes.Typed.{hset-Keeps, hget-Keeps}
use yedis.Sets.{HashTable}
use yedis.Sets.Typed.{sadd-Keeps, scard-Keeps, smember-Keeps, spop-Keeps}
use yedis.SortedSets.{Doubles}
use yedis.SortedSets.Typed.{zadd-Keeps}
use yedis.Typed.{Typed, OptionAll, OutcomeAll, Entries, find-Entries, assign-Entries}
use yedis.Typed.Rules.{Sound, Keeps, Any, param-then, then-Keeps}
use yedis.Commands.{
  Commands, inserted, add_command, get_command, run, exec_command, reply_command, command, prepare,
  add_all, registrations, init,
}

-- A handler that leaves the objects right.
abbrev Fair : Handler → Type 0
Fair handler = (params : Params) → Keeps Any (handler params)

reply_command-Keeps : (b : Bool) → Keeps Any (reply_command b)
reply_command-Keeps true = λ e h. (tt, h)
reply_command-Keeps false = λ e h. (tt, h)

command-Fair : Fair command
unfolding command
command-Fair params =
    param-then Any 0 params _ (λ cmd. reply_command-Keeps (bytes_eq cmd (codes "COMMAND")))

inserted-Entries :
    (cmd : Bytes) (handler : Handler) (table : Commands) (there : Option Handler)
    → Fair handler
    → Entries Fair table
    → Entries Fair (inserted cmd handler table there).1
inserted-Entries cmd handler table none f h = assign-Entries Fair cmd handler table f h
inserted-Entries cmd handler table (some x) f h = h

add_command-Entries :
    (cmd : Bytes) (handler : Handler) (table : Commands)
    → Fair handler
    → Entries Fair table
    → Entries Fair (add_command cmd handler table).1
unfolding add_command
add_command-Entries [] handler table f h = h
add_command-Entries (c ∷ cmd) handler table f h =
    inserted-Entries (c ∷ cmd) handler table (find (c ∷ cmd) table) f h

add_all-Entries :
    (new : Assoc Handler) (table : Commands)
    → Entries Fair new
    → Entries Fair table
    → Entries Fair (add_all new table)
unfolding add_all
add_all-Entries [] table f h = h
add_all-Entries ((cmd, handler) ∷ rest) table f h =
    add_all-Entries rest (add_command cmd handler table).1 f.1
      (add_command-Entries cmd handler table f.0 h)

run-Keeps : (params : Params) (o : Option Handler) → OptionAll Fair o → Keeps Any (run params o)
run-Keeps params none f = λ e h. (tt, h)
run-Keeps params (some handler) f = then-Keeps Any (handler params) _ (f params) (λ _ e h. (tt, h))

exec_command-Keeps :
    (table : Commands) (params : Params)
    → Entries Fair table
    → Keeps Any (exec_command table params)
unfolding exec_command get_command
exec_command-Keeps table params f =
    param-then Any 0 params _
      (λ cmd. run-Keeps params (find cmd table) (find-Entries Fair cmd table f))

-- A store with no key space, as the program has it before `prepare`.
abbrev pub no_store : ℕ → Store
no_store clock = record { dbs = []; dbno = 0; lruclock = clock }

prepare-Typed : (clock : ℕ) → Typed (prepare (no_store clock))
unfolding prepare Store.init Store.select_db
prepare-Typed clock = (tt, tt)

module _ (hashing : HashTable) (doubles : Doubles) where
  registrations-Entries : (random : List ℕ) → Entries Fair (registrations hashing random doubles)
  registrations-Entries random = (
    command-Fair,
    (
      set_cmd-Keeps,
      (
        get_cmd-Keeps,
        (
          setnx_cmd-Keeps,
          (
            lpush-Keeps,
            (
              rpush-Keeps,
              (
                lpushx-Keeps,
                (
                  rpushx-Keeps,
                  (
                    lpop-Keeps,
                    (
                      rpop-Keeps,
                      (
                        llen-Keeps,
                        (
                          lrange-Keeps,
                          (
                            sadd-Keeps,
                            (
                              scard-Keeps,
                              (
                                smember-Keeps hashing,
                                (
                                  spop-Keeps hashing random,
                                  (hget-Keeps, (hset-Keeps, (zadd-Keeps doubles, tt))),
                                ),
                              ),
                            ),
                          ),
                        ),
                      ),
                    ),
                  ),
                ),
              ),
            ),
          ),
        ),
      ),
    ),
  )

  init-Entries : (random : List ℕ) → Entries Fair (init hashing random doubles [])
  unfolding init
  init-Entries random =
      add_all-Entries (registrations hashing random doubles) [] (registrations-Entries random) tt

  -- Requests, one behind the other, each with what `random()` gives while it runs.
  unfoldable pub exec_all : List (List ℕ × List Bytes) → Env → Outcome Env
  unfolding exec_command
  exec_all [] e = done e
  exec_all ((random, params) ∷ rest) e =
      Outcome.◌>>=◌ (exec_command (init hashing random doubles []) params e)
        (λ r. exec_all rest r.1)

  next-All :
      (rest : List (List ℕ × List Bytes)) (o : Outcome (Bool × Env))
      → Sound Any o
      → ((e : Env) → Typed e.store → OutcomeAll (λ (e' : Env). Typed e'.store) (exec_all rest e))
      → OutcomeAll (λ (e' : Env). Typed e'.store) (Outcome.◌>>=◌ o (λ r. exec_all rest r.1))
  next-All rest (done r) h k = k r.1 h.1
  next-All rest fault h k = tt
  next-All rest out_of_fuel h k = tt

  exec_all-Keeps :
      (requests : List (List ℕ × List Bytes)) (e : Env)
      → Typed e.store
      → OutcomeAll (λ (e' : Env). Typed e'.store) (exec_all requests e)
  unfolding exec_all
  exec_all-Keeps [] e h = h
  exec_all-Keeps ((random, params) ∷ rest) e h =
      let table = init hashing random doubles [] in
      next-All rest (exec_command table params e)
        (exec_command-Keeps table params (init-Entries random) e h) (exec_all-Keeps rest)

-- Whatever requests are run, one behind the other, on the store as the program prepares it: unless one
-- of them ends in undefined behaviour, every object of every key space is then a string with a text or
-- a number behind its pointer, a list with a list, a set with a set, a hash with a hash, or a sorted set
-- with a sorted set, with the encoding that says so.
pub exec_all-Typed :
    (hashing : HashTable) (doubles : Doubles) (requests : List (List ℕ × List Bytes)) (clock : ℕ)
    (reply : Reply)
    → OutcomeAll
        (λ (e : Env). Typed e.store)
        (exec_all hashing doubles requests
          (record { store = prepare (no_store clock); reply = reply }))
exec_all-Typed hashing doubles requests clock reply =
    exec_all-Keeps hashing doubles requests
      (record { store = prepare (no_store clock); reply = reply }) (prepare-Typed clock)
