-- ===== src/Net/Connection.antt =====
-- net/TcpConnection.h and net/TcpConnection.cpp: a connection, with the poller of its loop.
-- The calls of the callbacks are kept in order, with what they can see of the connection. The message
-- callback takes bytes out of the input buffer: it is a parameter.
pub mod Orderly
pub mod Reading
pub mod Closing
use yedis.Prelude.{
  ℕ, suc, Bool, true, false, Option, none, some, List, [], ◌∷◌, ◌++◌, Bytes, not, if◌then◌else◌,
}
use yedis.Prelude.Int.{ℤ, pos, negsuc}
use yedis.Outcome.{Outcome, done, fault, ◌>>=◌}
use yedis.Buffer.{Buffer, Read, content, initial_size, new_buffer, read_fd}
use yedis.Net.Channel.{Channel, is_writing}
use yedis.Net.EpollPoller.{Poller, EpollCtl, enable_reading, disable_all, remove}

-- `kDisconnected` and so on
pub data State : Type 0 where
  disconnected connecting connected disconnecting : State

pub data Notice : Type 0 where
  connection_called : State → Notice
  message_called : Bytes → Notice
  close_called : Notice

-- `has_socket`: `m_ptrSocket` is not null. `written` is what was given to `Sockets::Write`, `queued`
-- what waits in the loop to be sent.
pub record Connection (K : Type 0) : Type 0 where
  pub name : Bytes
  pub state : State
  pub channel : ℕ
  pub has_socket : Bool
  pub input : Buffer
  pub poller : Poller K
  pub written : List Bytes
  pub queued : List Bytes
  pub calls : List Notice

abbrev pub is_connecting : State → Bool
is_connecting st = elim st [ connecting ↦ true | _ ↦ false ]

abbrev pub is_connected : State → Bool
is_connected st = elim st [ connected ↦ true | _ ↦ false ]

abbrev pub is_disconnected : State → Bool
is_disconnected st = elim st [ disconnected ↦ true | _ ↦ false ]

module _ {K : Type 0} where
  -- `TcpConnection(loop, sockfd)`, whose channel is at `channel` in the memory of the poller
  unfoldable pub new_connection : ℕ → Poller K → Connection K
  unfolding new_buffer
  new_connection channel poller = record {
    name = [];
    state = connecting;
    channel = channel;
    has_socket = false;
    input = new_buffer initial_size;
    poller = poller;
    written = [];
    queued = [];
    calls = [];
  }

  abbrev pub notify : Notice → Connection K → Connection K
  notify n c = record c { calls = c.calls ++ n ∷ [] }

  -- `setState(kDisconnected)` and `disableAll`, whose result is not used
  abbrev pub disconnect : EpollCtl K → Connection K → Connection K
  disconnect epoll_ctl c = record c {
    state = disconnected;
    poller = (disable_all epoll_ctl c.channel c.poller).1;
  }

  unfoldable pub handle_close : EpollCtl K → Connection K → Connection K
  unfolding disable_all
  handle_close epoll_ctl c =
      if is_disconnected c.state
      then c
      else notify close_called (notify (connection_called disconnected) (disconnect epoll_ctl c))

  unfoldable pub connect_established : EpollCtl K → Connection K → Connection K
  unfolding handle_close
  connect_established epoll_ctl c =
      if not (is_connecting c.state)
      then c
      else let (ok, poller) = enable_reading epoll_ctl c.channel c.poller in
        let c' = record c { state = connected; poller = poller } in
        if not ok then handle_close epoll_ctl c' else notify (connection_called connected) c'

  abbrev pub with_removed : Connection K → Connection K
  with_removed c = record c { poller = remove c.channel c.poller }

  unfoldable pub connect_destroyed : EpollCtl K → Connection K → Connection K
  unfolding disable_all
  connect_destroyed epoll_ctl c = with_removed (
      if is_connected c.state
      then notify (connection_called disconnected) (disconnect epoll_ctl c)
      else c)

  -- `nRead > 0`
  abbrev pub message_if : (Buffer → Outcome Buffer) → ℤ → Connection K → Outcome (Connection K)
  message_if on_message (pos (suc n)) c = on_message c.input >>= λ b.
      done (record c { input = b; calls = c.calls ++ message_called (content c.input) ∷ [] })
  message_if on_message n c = done c

  unfoldable pub handle_read :
      (Buffer → Outcome Buffer) → ℕ → Read → Connection K → Outcome (Connection K)
  unfolding read_fd
  handle_read on_message errno_before r c =
      read_fd errno_before r c.input >>= λ q. message_if on_message q.0.0 (record c { input = q.1 })

  -- The output buffer of a connection stays empty.
  unfoldable pub handle_write : Connection K → Outcome (Connection K)
  handle_write c =
      if is_writing (c.poller.channels c.channel)
      then if c.has_socket then done (record c { written = c.written ++ [] ∷ [] }) else fault
      else done c

  unfoldable pub send_in_loop : Bytes → Connection K → Outcome (Connection K)
  send_in_loop bytes c =
      if is_disconnected c.state
      then done c
      else if c.has_socket
      then done (record c { written = c.written ++ bytes ∷ [] })
      else fault

  unfoldable pub send : Bool → Bytes → Connection K → Outcome (Connection K)
  unfolding send_in_loop
  send in_loop_thread bytes c =
      if not (is_connected c.state)
      then done c
      else if in_loop_thread
      then send_in_loop bytes c
      else done (record c { queued = c.queued ++ bytes ∷ [] })
