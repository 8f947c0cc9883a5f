-- ===== src/Net/Server.antt =====
-- net/Server.cpp: the table of the connections. What is given to the loops is kept in order: the
-- connections that are established, and those that are destroyed. `overwritten` are the entries of the
-- table that gave way to a connection of the same name.
pub mod Table
pub mod Leaks
use yedis.Prelude.{ℕ, ◌+◌, Option, none, some, List, [], ◌∷◌, ◌++◌, Bytes, take}
use yedis.Prelude.Int.{ℤ, pos, ◌+ℤ◌, to_int}
use yedis.Prelude.Assoc.{Assoc, find, assign, erase}
use yedis.Outcome.{Outcome, done, fault, ◌>>=◌}
use yedis.Decimal.{print_int}
use yedis.Net.Pool.{Pool, get_next_loop}

-- A pointer to a connection, and what the server reads of the connection.
pub record Handle : Type 0 where
  pub name : Bytes
  pub loop : ℕ
  pub sockfd : ℕ

-- The constructor of `TcpConnection` sets no other name, and nothing sets it later.
abbrev pub new_handle : ℕ → ℕ → Handle
new_handle loop sockfd = record { name = []; loop = loop; sockfd = sockfd }

pub record Server : Type 0 where
  pub name : Bytes
  pub pool : Pool
  pub next_conn_id : ℤ
  pub connections : Assoc Handle
  pub overwritten : Assoc Handle
  pub established : List Handle
  pub destroyed : List Handle

-- `m_strName + buf`, where `snprintf` puts 31 characters into `buf` at most. `peer` is the text of the
-- address.
abbrev pub connection_name : Bytes → Bytes → ℤ → Bytes
connection_name name peer id = name ++ take 31 (b':' ∷ peer ++ b'#' ∷ print_int id)

-- The entry that an assignment overwrites.
abbrev pub entry_of : Bytes → Option Handle → Assoc Handle
entry_of key none = []
entry_of key (some conn) = (key, conn) ∷ []

-- `new TcpConnection(nextLoop, nSockfd)`, and what follows. The `int` wraps around.
abbrev pub connect : ℕ → Bytes → Option ℕ × Pool → Server → Outcome Server
connect sockfd peer (none, pool) s = fault
connect sockfd peer (some loop, pool) s =
    let conn = new_handle loop sockfd in
    let conn_name = connection_name s.name peer s.next_conn_id in
    done (record s {
      pool = pool;
      next_conn_id = to_int (s.next_conn_id +ℤ pos 1);
      connections = assign conn_name conn s.connections;
      overwritten = s.overwritten ++ entry_of conn_name (find conn_name s.connections);
      established = s.established ++ conn ∷ [];
    })

unfoldable pub new_connection : ℕ → Bytes → Server → Outcome Server
unfolding get_next_loop
new_connection sockfd peer s = get_next_loop s.pool >>= λ r. connect sockfd peer r s

abbrev pub destroy : Handle → Option Handle → Server → Server
destroy conn none s = s
destroy conn (some c) s = record s {
  connections = erase conn.name s.connections;
  destroyed = s.destroyed ++ conn ∷ [];
}

unfoldable pub remove_connection_in_loop : Handle → Server → Server
remove_connection_in_loop conn s = destroy conn (find conn.name s.connections) s
