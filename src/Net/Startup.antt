-- ===== src/Net/Startup.antt =====
-- The constructor and `start` of net/Server.cpp, and `init` of src/YedisServer.cpp.
-- `start_loop` gives the loops that the threads publish, and `cores` is what `hardware_concurrency`
-- gives. Nothing sets `m_nNextConnId`: `id` is what the memory held. `init` runs in the thread of the
-- loop, so that `runInLoop` calls at once.
use yedis.Prelude.{
  find_first_of, ℕ, zero, suc, ◌+◌, ◌<◌, ◌≡◌, refl, ap, ◌∙◌, Bool, true, false, Option, none, some,
  [], ◌++◌, Bytes, map, codes, length, not, ◌||◌, if◌then◌else◌, arith, ◌^◌,
}
use yedis.Prelude.Int.{ℤ, pos}
use yedis.Prelude.Assoc.{find}
use yedis.Outcome.{done}
use yedis.Decimal.{print_nat}
use yedis.Net.SocketAddr.{Inet, SocketAddr, parse_addr, get_port}
use yedis.Net.SocketAddr.RoundTrip.{parse_addr-to_string}
use yedis.Net.Sockets.{Kernel, listen, is_negative, listen_socket}
use yedis.Net.Pool.{new_pool, init, start, start_loops}
use yedis.Net.Server.{Server, Handle}
use yedis.Net.Server.Table.{IsServer}
use yedis.Net.AcceptNew.{AcceptNew, new_accept, start_listening, accept_times}
use yedis.Net.AcceptNew.Accepted.{sockfds, accepted, accept_times-accepted}

pub record Startup : Type 0 where
  pub started : Bool
  pub host_port : Bytes
  pub acceptor : AcceptNew
  pub server : Server

module _ {K : Type 0} (kernel : Kernel K) (inet : Inet) where
  -- `Server(loop, listenAddr, nameArg, option)`
  unfoldable pub new_server : SocketAddr → Bytes → ℤ → ℤ → K → Startup × K
  unfolding new_accept get_port
  new_server listen_addr name idle id k =
      let (a, k') = new_accept kernel listen_addr idle k in
      (
        record {
          started = false;
          host_port = print_nat (get_port inet listen_addr);
          acceptor = record a { has_callback = true };
          server = record {
            name = name;
            pool = new_pool;
            next_conn_id = id;
            connections = [];
            overwritten = [];
            established = [];
            destroyed = [];
          };
        },
        k',
      )

  -- `start(nWorkThreadCount)`, for the loop `base`
  unfoldable pub start_server : (ℕ → ℕ) → ℕ → ℕ → Startup → K → Startup × K
  unfolding start init start_listening
  start_server start_loop base threads s k =
      if s.started
      then (s, k)
      else (let (a, k') = start_listening kernel s.acceptor k in
          let pool = start start_loop (init (some base) threads new_pool) in
          (record s { started = true; acceptor = a; server = record s.server { pool = pool } }, k'))

  abbrev start_at : (ℕ → ℕ) → ℕ → ℕ → ℤ → ℤ → Option SocketAddr → K → Option (Startup × K)
  start_at start_loop base cores idle id none k = none
  start_at start_loop base cores idle id (some addr) k =
      let (s, k') = new_server addr (codes "YedisServer") idle id k in
      some (start_server start_loop base (cores + 2) s k')

  -- `none` is the exception of `std::stoi` for the port.
  unfoldable pub init_server : (ℕ → ℕ) → ℕ → ℕ → ℤ → ℤ → Bytes → Bytes → K → Option (Startup × K)
  unfolding new_server start_server parse_addr
  init_server start_loop base cores idle id host port k =
      start_at start_loop base cores idle id (parse_addr inet (host ++ codes ":" ++ port)) k

  length-start_loops : (start_loop : ℕ → ℕ) (i n : ℕ) → length (start_loops start_loop i n) ≡ n
  length-start_loops start_loop i zero = refl
  length-start_loops start_loop i (suc n) = ap suc (length-start_loops start_loop (i + 1) n)

  -- The last call was `listen` on the acceptor's socket, and its events are read just if that succeeded.
  abbrev pub Listened : AcceptNew → K → Type 0
  Listened a k' =
      (k : K) × (k' ≡ (kernel.call (listen a.accept_fd) k).1)
      × (a.reading ≡ not (is_negative (kernel.call (listen a.accept_fd) k).0))

  start_listening-Listened :
      (a : AcceptNew) (k : K)
      → a.reading ≡ false
      → Listened (start_listening kernel a k).0 (start_listening kernel a k).1
  unfolding start_listening listen_socket
  start_listening-Listened a k e =
      let r = kernel.call (listen a.accept_fd) k in
      let way : Bool → Bool × K = λ b. if b then (false, r.1) else (true, r.1) in
      let cases : (b : Bool) → ((way b).1 ≡ r.1) × (a.reading || (way b).0 ≡ not b) = λ b.
        elim b as (λ b. ((way b).1 ≡ r.1) × (a.reading || (way b).0 ≡ not b)) [
          | true ↦ (refl, ap (λ c. c || false) e)
          | false ↦ (refl, ap (λ c. c || true) e)
        ] in
      let c = cases (is_negative r.0) in (k, c.0, c.1)

  start_at-IsServer :
      (start_loop : ℕ → ℕ) (base cores : ℕ) (idle id : ℤ) (addr : SocketAddr) (k : K)
      → (s : Startup) × (k' : K) × (start_at start_loop base cores idle id (some addr) k
          ≡ some (s, k'))
        × (s.started ≡ true)
        × (s.host_port ≡ print_nat (get_port inet addr))
        × (s.acceptor.has_callback ≡ true)
        × (s.acceptor.listenning ≡ true)
        × Listened s.acceptor k'
        × IsServer s.server
        × (s.server.established ≡ [])
        × (s.server.pool.loops ≡ start_loops start_loop 0 (cores + 2))
  unfolding new_server start_server start init start_listening find
  start_at-IsServer start_loop base cores idle id addr k =
      let r = new_server addr (codes "YedisServer") idle id k in
      let s = start_server start_loop base (cores + 2) r.0 r.1 in
      (
        s.0,
        s.1,
        refl,
        refl,
        refl,
        refl,
        refl,
        start_listening-Listened r.0.acceptor r.1 refl,
        record {
          is_pool = record {
            is_started = refl;
            in_range = omega (arith, length-start_loops start_loop 0 (cores + 2));
          };
          named = refl;
        },
        refl,
        refl,
      )

-- A server that is initialised for an address and a port below 2 ^ 16, and then called for its acceptor
-- `n` times, whatever the kernel answers: the last call of its start is `listen` on the acceptor's
-- socket, whose events are read just if that call succeeds, while the flag that says that it listens is
-- set even where `socket`, `bind` or `listen` fail; its pool has the loops of all threads, two more
-- than there are cores; it does not fail; and the connections that are established are those of the
-- descriptors that `accept4` gave, each once and in their order. The address has no colon; `inet_ntop`
-- prints it for `inet_addr` of it, `ntohs` undoes `htons` on the port, and `stoi` reads its digits.
pub init_server-accepted :
    {K : Type 0} (kernel : Kernel K) (inet : Inet) (start_loop : ℕ → ℕ) (base cores : ℕ)
    (idle id : ℤ) (ip : Bytes) (port : ℕ) (k : K) (n : ℕ)
    → port < 2 ^ 16
    → find_first_of b':' ip ≡ none
    → inet.inet_ntop (inet.inet_addr ip) ≡ ip
    → inet.ntohs (inet.htons port) ≡ port
    → inet.stoi (print_nat port) ≡ some (pos port)
    → (s : Startup) × (k1 : K) × (s' : Server) × (a' : AcceptNew) × (k2 : K) × (init_server kernel
          inet start_loop base cores idle id ip
          (print_nat port)
          k
        ≡ some (s, k1))
      × (s.host_port ≡ print_nat port)
      × (s.acceptor.listenning ≡ true)
      × Listened kernel inet s.acceptor k1
      × (s.server.pool.loops ≡ start_loops start_loop 0 (cores + 2))
      × (accept_times kernel inet n s.acceptor k1 s.server ≡ done (s', a', k2))
      × (sockfds s' ≡ accepted kernel inet n s.acceptor k1)
unfolding init_server
init_server-accepted kernel inet start_loop base cores idle id ip port k n small plain printed
      swapped read =
    let (addr, parsed, _, port_of, _) =
      parse_addr-to_string inet ip port small plain printed swapped read in
    let (s, k1, run, _, host, callback, flag, listens, is_server, none_yet, loops) =
      start_at-IsServer kernel inet start_loop base cores idle id addr k in
    let (s', a', k2, served, _, all) =
      accept_times-accepted kernel inet n s.acceptor k1 s.server callback is_server in
    (
      s,
      k1,
      s',
      a',
      k2,
      ap (λ o. start_at kernel inet start_loop base cores idle id o k) parsed ∙ run,
      host ∙ ap print_nat port_of,
      flag,
      listens,
      loops,
      served,
      all
          ∙ ap (λ l. map (λ (h : Handle). h.sockfd) l ++ accepted kernel inet n s.acceptor k1)
              none_yet,
    )
