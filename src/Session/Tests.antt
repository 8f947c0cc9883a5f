-- ===== src/Session/Tests.antt =====
-- A request on a new connection, and a message to one that is gone.
use yedis.Prelude.{◌≡◌, ◌++◌, some, [], ◌∷◌, arith, codes}
use yedis.Decimal.{print_nat}
use yedis.Outcome.{done, ◌>>=◌}
use yedis.Format.{array}
use yedis.Buffer.{Buffer, got, content, initial_size, new_buffer, read_fd}
use yedis.Buffer.Space.{IsBuffer, new_buffer-IsBuffer}
use yedis.Samples.{one, two, empty_env}
use yedis.Tasks.{Tasks, producer}
use yedis.Session.{session_on_read}
use yedis.Session.Served.{read_fd-session_on_read}

abbrev idle : Tasks
idle = record { deque = []; store = empty_env.store; sent = [] }

read_fd-session_on_read_example :
    (b' : Buffer) × ((read_fd 0
          (got (array (one ∷ two ∷ []) ++ codes "*1"))
          (new_buffer initial_size)
        >>= λ r. session_on_read (some 4) r.1 idle)
      ≡ done (producer (record { conn = some 4; vec_cmd = one ∷ two ∷ [] }) idle, b'))
    × IsBuffer b'
    × (content b' ≡ [])
unfolding print_nat
read_fd-session_on_read_example =
    let v = new_buffer-IsBuffer initial_size in
    read_fd-session_on_read (some 4) 0 (one ∷ two ∷ []) (codes "*1") (new_buffer initial_size) idle
      v.0 v.1 (omega arith)
