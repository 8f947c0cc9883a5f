-- ===== src/Net/AcceptTests.antt =====
-- Runs of an address, and of a server whose kernel gives a connection at every other call.
use yedis.Prelude.{
  ℕ, ◌+◌, ◌≡◌, refl, true, false, some, ◌++◌, Bytes, codes, arith, if◌then◌else◌, bytes_eq, ltb,
  ◌==◌, ◌%◌,
}
use yedis.Prelude.Int.{ℤ, pos, negsuc}
use yedis.Outcome.{done}
use yedis.Decimal.{print_nat, value}
use yedis.Net.SocketAddr.{
  Inet, SocketAddr, clear, parse_addr, to_string, get_port, same_addr, init_host,
}
use yedis.Net.SocketAddr.RoundTrip.{parse_addr-to_string}
use yedis.Net.Sockets.{
  Request, socket, open_null, accept4, accept, close, listen, get_status, get_descriptor, bind,
  reuse_addr, reuse_port, set_status, set_descriptor, Kernel,
}
use yedis.Net.Server.{Server}
use yedis.Net.AcceptNew.{AcceptNew, accept_times}
use yedis.Net.AcceptNew.Accepted.{sockfds, accepted}
use yedis.Net.Startup.{Startup, Listened, init_server, init_server-accepted}
use yedis.Net.Pool.{start_loops}

abbrev localhost : Bytes
localhost = codes "127.0.0.1"

abbrev small_inet : Inet
small_inet = record {
  af_inet = 2;
  inet_addr = λ ip. if bytes_eq ip localhost then 1 else 0;
  inet_ntop = λ n. if ltb 0 n then localhost else codes "0.0.0.0";
  htons = λ n. n;
  ntohs = λ n. n;
  stoi = λ s. some (pos (value 0 s));
}

parse_addr-to_string_example :
    (a : SocketAddr) × (parse_addr small_inet (localhost ++ codes ":" ++ print_nat 8008) ≡ some a)
    × (to_string small_inet a ≡ localhost ++ codes ":" ++ print_nat 8008)
    × (get_port small_inet a ≡ 8008)
    × (same_addr a (init_host small_inet localhost 8008) ≡ true)
unfolding bytes_eq print_nat
parse_addr-to_string_example =
    parse_addr-to_string small_inet localhost 8008 (omega arith) refl refl refl refl

-- Descriptor 7 waits when the state is even.
abbrev answer : Request → ℕ → ℤ × ℕ
answer (accept4 fd) k = (if k % 2 == 0 then pos 7 else negsuc 0, k + 1)
answer socket k = (pos 3, k + 1)
answer open_null k = (pos 4, k + 1)
answer (accept fd) k = (negsuc 0, k + 1)
answer (close fd) k = (pos 0, k + 1)
answer (listen fd) k = (pos 0, k + 1)
answer (get_status fd) k = (pos 0, k + 1)
answer (get_descriptor fd) k = (pos 0, k + 1)
answer (bind fd addr) k = (pos 0, k + 1)
answer (reuse_addr fd on) k = (pos 0, k + 1)
answer (reuse_port fd on) k = (pos 0, k + 1)
answer (set_status fd flags) k = (pos 0, k + 1)
answer (set_descriptor fd flags) k = (pos 0, k + 1)

abbrev small_kernel : Kernel ℕ
small_kernel = record {
  call = answer;
  or_nonblock = λ flags. flags;
  or_cloexec = λ flags. flags;
  peer = λ k. clear;
  is_emfile = λ k. false;
}

init_server-accepted_example :
    (s : Startup) × (k1 : ℕ) × (s' : Server) × (a' : AcceptNew) × (k2 : ℕ) × (init_server
        small_kernel small_inet
        (λ i. 10 + i)
        1
        4
        (negsuc 0)
        (pos 0)
        localhost
        (print_nat 9900)
        0
      ≡ some (s, k1))
    × (s.host_port ≡ print_nat 9900)
    × (s.acceptor.listenning ≡ true)
    × Listened small_kernel small_inet s.acceptor k1
    × (s.server.pool.loops ≡ start_loops (λ i. 10 + i) 0 (4 + 2))
    × (accept_times small_kernel small_inet 3 s.acceptor k1 s.server ≡ done (s', a', k2))
    × (sockfds s' ≡ accepted small_kernel small_inet 3 s.acceptor k1)
unfolding bytes_eq print_nat
init_server-accepted_example =
    init_server-accepted small_kernel small_inet (λ i. 10 + i) 1 4 (negsuc 0) (pos 0) localhost 9900
      0 3 (omega arith) refl refl refl refl
