-- ===== src/Commands/Served.antt =====
-- Which handler serves which name (src/YedisRegisterCmd.cpp), beside the table.
use yedis.Prelude.{ℕ, ◌≡◌, ◌⊎◌, false, true, List, [], ◌∷◌, ◌++◌, Bytes, codes, crlf}
use yedis.Prelude.Assoc.{Assoc}
use yedis.Outcome.{done}
use yedis.Exec.{Env, Handler, ◌>>=◌, pure}
use yedis.Strings.{set_cmd, get_cmd, setnx_cmd}
use yedis.Lists.{lpush, rpush, lpushx, rpushx, lpop, rpop, llen, lrange}
use yedis.Sets.{HashTable, sadd, scard, smember, spop}
use yedis.Hashes.{hset, hget}
use yedis.SortedSets.{Doubles, zadd}
use yedis.Commands.{command, exec_command, registrations, init}

module _ (hashing : HashTable) (random : List ℕ) (doubles : Doubles) where
  -- The handler that is meant for a name.
  pub data Serves : Bytes → Handler → Type 0 where
    introduces : Serves (codes "COMMAND") command
    sets : Serves (codes "set") set_cmd
    gets : Serves (codes "get") get_cmd
    sets_new : Serves (codes "setnx") setnx_cmd
    pushes_head : Serves (codes "LPUSH") lpush
    pushes_tail : Serves (codes "RPUSH") rpush
    pushes_head_old : Serves (codes "LPUSHX") lpushx
    pushes_tail_old : Serves (codes "RPUSHX") rpushx
    pops_head : Serves (codes "LPOP") lpop
    pops_tail : Serves (codes "RPOP") rpop
    counts_list : Serves (codes "LLEN") llen
    lists_range : Serves (codes "LRANGE") lrange
    adds_members : Serves (codes "SADD") sadd
    counts_set : Serves (codes "SCARD") scard
    lists_set : Serves (codes "SMEMBERS") (smember hashing)
    pops_member : Serves (codes "SPOP") (spop hashing random)
    gets_field : Serves (codes "HGET") hget
    sets_field : Serves (codes "HSET") hset
    adds_scores : Serves (codes "ZADD") (zadd doubles)

  abbrev table : Assoc Handler
  table = registrations hashing random doubles

  -- A handler is meant for the name and runs; or for no handler is the name meant, and the answer is an
  -- error.
  abbrev pub Dispatched : Bytes → List Bytes → Env → Type 0
  Dispatched c params e =
      ((h : Handler) × Serves c h
        × (exec_command (init hashing random doubles []) (c ∷ params) e
            ≡ (h (c ∷ params) >>= λ _. pure true) e))
      ⊎ (((h : Handler) → Serves c h → ⊥)
          × (exec_command (init hashing random doubles []) (c ∷ params) e
              ≡ done
                  (false, record e { reply = e.reply ++ (codes "-ERR Unknown command" ++ crlf) })))
