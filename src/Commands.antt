-- ===== src/Commands.antt =====
-- src/YedisCommand.h, src/YedisCommand.cpp and src/YedisRegisterCmd.cpp: the table of the commands,
-- what is registered in it, and the dispatch. A registered command is its handler.
pub mod Laws
pub mod Served
pub mod Typed
mod Tests
use yedis.Prelude.{
  ℕ, Bool, true, false, Option, none, some, List, [], ◌∷◌, ◌++◌, Bytes, codes, crlf, bytes_eq,
  if◌then◌else◌,
}
use yedis.Prelude.Int.{ℤ, pos}
use yedis.Prelude.Assoc.{Assoc, find, assign, erase}
use yedis.Object.{YError}
use yedis.Store
use yedis.Store.{Store, is_some}
use yedis.Exec.{Exec, Handler, ◌>>=◌, ◌>>◌, pure, return, push, param}
use yedis.Strings.{set_cmd, get_cmd, setnx_cmd}
use yedis.Lists.{lpush, rpush, lpushx, rpushx, lpop, rpop, llen, lrange}
use yedis.Sets.{HashTable, sadd, scard, smember, spop}
use yedis.Hashes.{hset, hget}
use yedis.SortedSets.{Doubles, zadd}

abbrev pub Commands : Type 0
Commands = Assoc Handler

-- `m_cmdInfo.insert` keeps an entry that is there; an empty name is not stored.
abbrev inserted : Bytes → Handler → Commands → Option Handler → Bool × Commands
inserted cmd handler table none = (true, assign cmd handler table)
inserted cmd handler table (some h) = (false, table)

unfoldable pub add_command : Bytes → Handler → Commands → Bool × Commands
add_command [] handler table = (true, table)
add_command (c ∷ cmd) handler table = inserted (c ∷ cmd) handler table (find (c ∷ cmd) table)

abbrev deleted : Bytes → Commands → Option Handler → Bool × Commands
deleted cmd table none = (false, table)
deleted cmd table (some h) = (true, erase cmd table)

unfoldable pub del_command : Bytes → Commands → Bool × Commands
del_command cmd table = deleted cmd table (find cmd table)

unfoldable pub exist_command : Bytes → Commands → Bool
exist_command cmd table = is_some (find cmd table)

unfoldable pub get_command : Bytes → Commands → Option Handler
get_command cmd table = find cmd table

abbrev pub unknown_command : Bytes
unknown_command = codes "-ERR Unknown command" ++ crlf

-- The error of the handler is not used.
abbrev pub run : List Bytes → Option Handler → Exec Bool
run params none = do push unknown_command; pure false
run params (some handler) = do _ ← handler params; pure true

unfoldable pub exec_command : Commands → List Bytes → Exec Bool
unfolding get_command
exec_command table params = do cmd ← param 0 params; run params (get_command cmd table)

-- `YedisRegisterCmd::command`
abbrev reply_command : Bool → Exec (Option YError)
reply_command true = do push (codes "+OK" ++ crlf); return YError.ok
reply_command false = return YError.ok

unfoldable pub command : Handler
command params = do cmd ← param 0 params; reply_command (bytes_eq cmd (codes "COMMAND"))

-- The constructor of `YedisRegisterCmd`.
unfoldable pub prepare : Store → Store
unfolding Store.init Store.select_db
prepare s = (Store.select_db (pos 0) (Store.init (pos 0) s)).1

-- `addCommand` for each name, in turn; what it returns is not used.
unfoldable pub add_all : Assoc Handler → Commands → Commands
unfolding add_command
add_all [] table = table
add_all ((cmd, handler) ∷ rest) table = add_all rest (add_command cmd handler table).1

-- `random` is what `random()` gives while one request is run.
module _ (hashing : HashTable) (random : List ℕ) (doubles : Doubles) where
  -- The names and handlers that `init` registers, in its order.
  abbrev pub registrations : Assoc Handler
  registrations =
      (codes "COMMAND", command)
      ∷ (codes "set", set_cmd)
      ∷ (codes "get", get_cmd)
      ∷ (codes "setnx", setnx_cmd)
      ∷ (codes "LPUSH", lpush)
      ∷ (codes "RPUSH", rpush)
      ∷ (codes "LPUSHX", lpushx)
      ∷ (codes "RPUSHX", rpushx)
      ∷ (codes "LPOP", lpop)
      ∷ (codes "RPOP", rpop)
      ∷ (codes "LLEN", llen)
      ∷ (codes "LRANGE", lrange)
      ∷ (codes "SADD", sadd)
      ∷ (codes "SCARD", scard)
      ∷ (codes "SMEMBERS", smember hashing)
      ∷ (codes "SPOP", spop hashing random)
      ∷ (codes "HGET", hget)
      ∷ (codes "HSET", hset)
      ∷ (codes "ZADD", zadd doubles)
      ∷ []

  unfoldable pub init : Commands → Commands
  unfolding add_all
  init table = add_all registrations table
