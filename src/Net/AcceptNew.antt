-- ===== src/Net/AcceptNew.antt =====
-- net/AcceptNew.cpp: the socket that listens, and what is done when a connection waits there; and the
-- callback of net/Server.cpp that is called for it.
pub mod Accepted
use yedis.Prelude.{ℕ, zero, suc, Bool, true, false, Option, none, some, if◌then◌else◌, ◌||◌}
use yedis.Prelude.Int.{ℤ, pos, negsuc}
use yedis.Outcome.{Outcome, done, ◌>>=◌}
use yedis.Net.SocketAddr.{Inet, SocketAddr, to_string}
use yedis.Net.Sockets.{
  Kernel, Request, accept, open_null, create_nonblocking_socket, bind_socket, set_reuse_addr,
  listen_socket, accept_socket, close_socket,
}
use yedis.Net.Server.{Server, new_connection}

-- `reading` is whether `enableReading` was called for the channel of the socket. `has_callback` is
-- whether `setNewConnectionCallback` was called.
pub record AcceptNew : Type 0 where
  pub accept_fd : ℤ
  pub reading : Bool
  pub has_callback : Bool
  pub listenning : Bool
  pub idle_fd : ℤ

-- What the callback is called with: the descriptor and the address.
abbrev pub Given : Type 0
Given = Option (ℤ × SocketAddr)

-- The server's `newConnection`, which its constructor binds as the callback.
abbrev pub give_connection : Inet → Given → Server → Outcome Server
give_connection inet none s = done s
give_connection inet (some (pos n, addr)) s = new_connection n (to_string inet addr) s
give_connection inet (some (negsuc n, addr)) s = done s

module _ {K : Type 0} (kernel : Kernel K) where
  -- `AcceptNew(loop, listenAddr, reuseport)`: nothing sets `idleFd_`, which is what the memory held.
  unfoldable pub new_accept : SocketAddr → ℤ → K → AcceptNew × K
  unfolding create_nonblocking_socket bind_socket set_reuse_addr
  new_accept listen_addr idle k =
      let (sockfd, k1) = create_nonblocking_socket kernel k in
      let (_, k2) = bind_socket kernel sockfd listen_addr k1 in
      (
        record {
          accept_fd = sockfd;
          reading = false;
          has_callback = false;
          listenning = false;
          idle_fd = idle;
        },
        set_reuse_addr kernel sockfd true k2,
      )

  unfoldable pub start_listening : AcceptNew → K → AcceptNew × K
  unfolding listen_socket
  start_listening a k =
      let (listens, k') = listen_socket kernel a.accept_fd k in
      (record a { listenning = true; reading = a.reading || listens }, k')

  -- With no descriptor left, the one in reserve is given up for a connection that is closed at once.
  abbrev pub drop_waiting : AcceptNew → K → AcceptNew × K
  drop_waiting a k =
      let k1 = (kernel.call (Request.close a.idle_fd) k).1 in
      let (waiting, k2) = kernel.call (accept a.accept_fd) k1 in
      let k3 = (kernel.call (Request.close waiting) k2).1 in
      let (idle, k4) = kernel.call open_null k3 in (record a { idle_fd = idle }, k4)

  -- Behind `AcceptSocket`, with its result.
  abbrev pub accepted_as : ℤ → AcceptNew → K → Given × AcceptNew × K
  accepted_as (pos n) a k =
      if a.has_callback
      then (some (pos n, kernel.peer k), a, k)
      else (none, a, close_socket kernel (pos n) k)
  accepted_as (negsuc n) a k =
      let (a', k') = drop_waiting a k in if kernel.is_emfile k then (none, a', k') else (none, a, k)

  unfoldable pub accept_ready : AcceptNew → K → Given × AcceptNew × K
  unfolding accept_socket close_socket
  accept_ready a k =
      let (connfd, k') = accept_socket kernel a.accept_fd k in accepted_as connfd a k'

  -- The loop calls the channel of the socket so often.
  unfoldable pub accept_times : Inet → ℕ → AcceptNew → K → Server → Outcome (Server × AcceptNew × K)
  unfolding accept_ready new_connection to_string
  accept_times inet zero a k s = done (s, a, k)
  accept_times inet (suc n) a k s =
      let (given, a', k') = accept_ready a k in
      give_connection inet given s >>= accept_times inet n a' k'
