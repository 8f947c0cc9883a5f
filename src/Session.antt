-- ===== src/Session.antt =====
-- src/YedisSession.cpp and src/YedisServer.cpp: a session, which a server makes for each connection, and
-- what stands between the input buffer of the connection and the queue of the tasks.
-- The connection of a session is a weak pointer: `none` once the connection is gone.
pub mod Served
mod Tests
use yedis.Prelude.{
  ℕ, Bool, true, false, Option, none, some, List, [], ◌∷◌, ◌++◌, Bytes, if◌then◌else◌,
}
use yedis.Outcome.{Outcome, done, ◌>>=◌}
use yedis.Buffer.{Buffer, readable_bytes, content, retrieve}
use yedis.Net.Connection.{Connection, is_connected, send}
use yedis.Tasks.{Tasks, on_read}

-- `buffer->retrieve(buffer->readableBytes())` of `onRead`
unfoldable pub take_input : Buffer → Outcome Buffer
unfolding retrieve
take_input b = retrieve (readable_bytes b) b

-- `onRead`: the bytes of the buffer, which are also behind `ptr`, go to the parser.
unfoldable pub session_on_read : Option ℕ → Buffer → Tasks → Outcome (Option Tasks × Buffer)
unfolding take_input on_read
session_on_read conn buffer s = do
  buffer' ← take_input buffer
  tasks ← on_read conn (content buffer) s
  done (tasks, buffer')

module _ {K : Type 0} where
  unfoldable pub send_package :
      Bool → Bytes → Option (Connection K) → Outcome (Option (Connection K))
  unfolding send
  send_package in_loop_thread bytes none = done none
  send_package in_loop_thread bytes (some conn) =
      send in_loop_thread bytes conn >>= λ conn'. done (some conn')

  -- `onConnection`. A session is known by the number of its connection, for which it becomes the
  -- message callback.
  unfoldable pub on_connection : ℕ → Connection K → List ℕ → List ℕ
  on_connection number conn sessions =
      if is_connected conn.state then sessions ++ number ∷ [] else sessions
