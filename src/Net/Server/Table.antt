-- ===== src/Net/Server/Table.antt =====
-- A server that is started with loops, and what a new connection makes of it.
use yedis.Prelude.{
  ℕ, zero, suc, ◌+◌, ◌<◌, ◌≡◌, refl, ap, ◌∙◌, true, false, Option, none, some, List, [], ◌∷◌, ◌++◌,
  Bytes, length, get_elem?, leb, if◌then◌else◌, not, arith, bytes_eq,
}
use yedis.Prelude.Maps.{if-cases}
use yedis.Prelude.Int.{ℤ, pos, ◌+ℤ◌, to_int}
use yedis.Prelude.Assoc.{find, assign, find-assign}
use yedis.Outcome.{Outcome, done, ◌>>=◌}
use yedis.Net.Pool.{Pool, give, take_turn, get_next_loop}
use yedis.Net.Server.{new_handle, Server, connection_name, entry_of, connect, new_connection}

-- The pool has been started, with loops.
pub record IsPool (s : Pool) : Type 0 where
  pub is_started : s.started ≡ true
  pub in_range : s.next < length s.loops

get_elem?-some : (l : List ℕ) (i : ℕ) → i < length l → (x : ℕ) × (get_elem? l i ≡ some x)
get_elem?-some [] i h = absurd (omega arith)
get_elem?-some (x ∷ l) zero h = (x, refl)
get_elem?-some (x ∷ l) (suc i) h = get_elem?-some l i (omega arith)

take_turn-give :
    (l : List ℕ) (s : Pool) → 0 < length l → take_turn l s ≡ give (get_elem? l s.next) s
take_turn-give [] s h = absurd (omega arith)
take_turn-give (x ∷ l) s h = refl

get_next_loop_lem :
    (s : Pool)
    → IsPool s
    → (loop : ℕ) × (s' : Pool) × (get_next_loop s ≡ done (some loop, s')) × IsPool s'
unfolding get_next_loop
get_next_loop_lem s v =
    let n = length s.loops in
    let (loop, found) = get_elem?-some s.loops s.next v.in_range in
    (
      loop,
      record s { next = if leb n (s.next + 1) then 0 else s.next + 1 },
      ap (λ b. if not b then done (none, s) else take_turn s.loops s) v.is_started
          ∙ take_turn-give s.loops s (omega (arith, v.in_range))
          ∙ ap (λ o. give o s) found,
      record {
        is_started = v.is_started;
        in_range =
            if-cases (λ i. i < n) (leb n (s.next + 1)) (λ e. omega (arith, v.in_range))
              (λ e. ground arith);
      },
    )

-- No connection is known by an empty name.
pub record IsServer (s : Server) : Type 0 where
  pub is_pool : IsPool s.pool
  pub named : find [] s.connections ≡ none

connection_name-nonempty :
    (name peer : Bytes) (id : ℤ) → bytes_eq (connection_name name peer id) [] ≡ false
unfolding bytes_eq
connection_name-nonempty [] peer id = refl
connection_name-nonempty (c ∷ name) peer id = refl

-- The server behind a new connection of the loop.
abbrev pub connected : ℕ → Pool → ℕ → Bytes → Server → Server
connected loop pool sockfd peer s = record s {
  pool = pool;
  next_conn_id = to_int (s.next_conn_id +ℤ pos 1);
  connections =
      assign (connection_name s.name peer s.next_conn_id) (new_handle loop sockfd) s.connections;
  overwritten =
      s.overwritten
      ++ entry_of (connection_name s.name peer s.next_conn_id)
          (find (connection_name s.name peer s.next_conn_id) s.connections);
  established = s.established ++ new_handle loop sockfd ∷ [];
}

pub new_connection-connected :
    (sockfd : ℕ) (peer : Bytes) (s : Server)
    → IsServer s
    → (loop : ℕ) × (pool : Pool) × (new_connection sockfd peer s
        ≡ done (connected loop pool sockfd peer s))
      × IsServer (connected loop pool sockfd peer s)
unfolding new_connection
new_connection-connected sockfd peer s v =
    let (loop, pool, run, p) = get_next_loop_lem s.pool v.is_pool in
    let name = connection_name s.name peer s.next_conn_id in
    let conn = new_handle loop sockfd in
    (
      loop,
      pool,
      ap (λ (o : Outcome (Option ℕ × Pool)). o >>= λ r. connect sockfd peer r s) run,
      record {
        is_pool = p;
        named =
            find-assign name [] conn s.connections
            ∙ ap (λ b. if b then some conn else find [] s.connections)
                (connection_name-nonempty s.name peer s.next_conn_id)
            ∙ v.named;
      },
    )
