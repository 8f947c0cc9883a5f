-- ===== src/Net/Sockets.antt =====
-- net/Sockets.cpp, as it is compiled on Linux: the wrappers of the calls that make, set up and close
-- sockets.
-- The kernel is a parameter: a function that is given a request and the kernel's state, and gives the
-- result of the call, which is -1 for an error.
use yedis.Prelude.{ℕ, Bool, true, false, if◌then◌else◌}
use yedis.Prelude.Int.{ℤ, pos, negsuc}
use yedis.Net.SocketAddr.{SocketAddr}

-- The calls. `socket` and `accept4` have the flags for non-blocking and close-on-exec; the pairs of
-- `get_` and `set_` are `fcntl` on the status and on the descriptor.
pub data Request : Type 0 where
  socket open_null : Request
  accept4 accept close listen get_status get_descriptor : ℤ → Request
  bind : ℤ → SocketAddr → Request
  reuse_addr reuse_port : ℤ → ℕ → Request
  set_status set_descriptor : ℤ → ℤ → Request

-- `or_nonblock` and `or_cloexec` set `O_NONBLOCK` and `FD_CLOEXEC` in flags. `peer` is the address that
-- the last `accept4` wrote, and `is_emfile` tells whether `errno` is `EMFILE`.
pub record Kernel (K : Type 0) : Type 0 where
  pub call : Request → K → ℤ × K
  pub or_nonblock : ℤ → ℤ
  pub or_cloexec : ℤ → ℤ
  pub peer : K → SocketAddr
  pub is_emfile : K → Bool

abbrev pub is_negative : ℤ → Bool
is_negative (pos n) = false
is_negative (negsuc n) = true

abbrev number_of : Bool → ℕ
number_of true = 1
number_of false = 0

module _ {K : Type 0} (kernel : Kernel K) where
  unfoldable pub create_socket : K → ℤ × K
  create_socket k =
      let (sockfd, k') = kernel.call socket k in
      if is_negative sockfd then (negsuc 0, k') else (sockfd, k')

  unfoldable pub set_non_block_socket : ℤ → K → K
  set_non_block_socket sockfd k =
      let (flags, k1) = kernel.call (get_status sockfd) k in
      let (_, k2) = kernel.call (set_status sockfd (kernel.or_nonblock flags)) k1 in
      let (flags', k3) = kernel.call (get_descriptor sockfd) k2 in
      (kernel.call (set_descriptor sockfd (kernel.or_cloexec flags')) k3).1

  unfoldable pub create_nonblocking_socket : K → ℤ × K
  unfolding set_non_block_socket
  create_nonblocking_socket k =
      let (sockfd, k') = kernel.call socket k in
      if is_negative sockfd then (negsuc 0, k') else (sockfd, set_non_block_socket sockfd k')

  unfoldable pub accept_socket : ℤ → K → ℤ × K
  accept_socket sockfd k = kernel.call (accept4 sockfd) k

  unfoldable pub bind_socket : ℤ → SocketAddr → K → Bool × K
  bind_socket sockfd addr k =
      let (ret, k') = kernel.call (bind sockfd addr) k in
      if is_negative ret then (false, k') else (true, k')

  unfoldable pub listen_socket : ℤ → K → Bool × K
  listen_socket sockfd k =
      let (ret, k') = kernel.call (listen sockfd) k in
      if is_negative ret then (false, k') else (true, k')

  unfoldable pub set_reuse_addr : ℤ → Bool → K → K
  set_reuse_addr sockfd on k = (kernel.call (reuse_addr sockfd (number_of on)) k).1

  unfoldable pub set_reuse_port : ℤ → Bool → K → K
  set_reuse_port sockfd on k = (kernel.call (reuse_port sockfd (number_of on)) k).1

  unfoldable pub close_socket : ℤ → K → K
  close_socket sockfd k = (kernel.call (close sockfd) k).1
