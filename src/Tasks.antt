-- ===== src/Tasks.antt =====
-- src/TaskManager.h and src/TaskManager.cpp: the bounded queue between the loops, which read requests,
-- and the thread that runs them; and `onRead` of src/YedisSession.cpp, which fills it.
-- A connection is its number, and a null pointer is `none`. What is sent is kept in order.
pub mod Order
pub mod Signals
mod Tests
use yedis.Prelude.{
  ℕ, ◌+◌, ◌<◌, ◌≡◌, Bool, true, false, Option, none, some, List, [], ◌∷◌, ◌++◌, Bytes, length, ltb,
  if◌then◌else◌,
}
use yedis.Outcome.{Outcome, done, fault, out_of_fuel, ◌>>=◌}
use yedis.Parser.{Parsed, fresh, start, parse_request}
use yedis.Store.{Store}
use yedis.Exec.{Env}
use yedis.Commands.{Commands, exec_command}

-- `connAndCmd`
pub record Task : Type 0 where
  pub conn : Option ℕ
  pub vec_cmd : List Bytes

abbrev pub max_size : ℕ
max_size = 30

pub record Tasks : Type 0 where
  pub deque : List Task
  pub store : Store
  pub sent : List (ℕ × Bytes)

-- `none` is a producer that waits because the queue is full.
unfoldable pub producer : Task → Tasks → Option Tasks
producer item s =
    if ltb (length s.deque) max_size then some (record s { deque = s.deque ++ item ∷ [] }) else none

-- `ptrTempConnection->send(srcbuf)`, and then `m_deque.pop_front()`.
abbrev pub send_reply : Option ℕ → List Task → Tasks → Env → Outcome (Option Tasks)
send_reply none rest s e = fault
send_reply (some conn) rest s e =
    done (some (record { deque = rest; store = e.store; sent = s.sent ++ (conn, e.reply) ∷ [] }))

-- `none` is the consumer that waits because the queue is empty. The lock is held until the reply is
-- sent, so that a call of the consumer is one step.
abbrev pub consume_first : Commands → List Task → Tasks → Outcome (Option Tasks)
consume_first table [] s = done none
consume_first table (item ∷ rest) s =
    exec_command table item.vec_cmd (record { store = s.store; reply = [] }) >>= λ r.
    send_reply item.conn rest s r.1

unfoldable pub consumer : Commands → Tasks → Outcome (Option Tasks)
consumer table s = consume_first table s.deque s

-- All bytes of the input buffer are given to a new parser. What the parser returns, and what it
-- leaves of the bytes, is not used.
unfoldable pub read_task : Option ℕ → Bytes → Outcome Task
read_task conn input =
    parse_request fresh (start input) >>= λ r. done (record { conn = conn; vec_cmd = r.1.params })

-- `onRead`, with the connection that is still there; `producerTask` puts the task into the queue.
unfoldable pub on_read : Option ℕ → Bytes → Tasks → Outcome (Option Tasks)
unfolding read_task producer
on_read conn input s = read_task conn input >>= λ item. done (producer item s)

-- The producers and the consumer take turns. The first list is what the producers have put in. Each
-- turn of the consumer has its own table, since `random()` has other results in it.
pub data Steps : List Task → Tasks → Tasks → Type 0 where
  stay : (s : Tasks) → Steps [] s s
  produce :
      (items : List Task) (item : Task) (s s' s'' : Tasks)
      → Steps items s s'
      → producer item s' ≡ some s''
      → Steps (items ++ item ∷ []) s s''
  consume :
      (table : Commands) (items : List Task) (s s' s'' : Tasks)
      → Steps items s s'
      → consumer table s' ≡ done (some s'')
      → Steps items s s''
