-- ===== src/Session/Served.antt =====
-- From the socket to the task.
use yedis.Prelude.{ℕ, ◌<◌, ◌^◌, ◌≡◌, ap, ◌∙◌, Option, List, [], ◌++◌, Bytes, length, arith}
use yedis.Prelude.Int.{ℤ}
use yedis.Prelude.Memory.{drop-all}
use yedis.Outcome.{Outcome, done, ◌>>=◌}
use yedis.Buffer.{Buffer, got, content, readable_bytes, read_fd}
use yedis.Buffer.Space.{IsBuffer, length-content}
use yedis.Buffer.Take.{retrieve_lem}
use yedis.Buffer.ReadFd.{read_fd_lem}
use yedis.Format.{array}
use yedis.Net.Connection.Orderly.{Consumes}
use yedis.Tasks.{Tasks, on_read, producer}
use yedis.Tasks.Order.{on_read-array}
use yedis.Session.{take_input, session_on_read}

-- `onRead` takes all bytes.
take_input_lem :
    (b : Buffer)
    → IsBuffer b
    → (b' : Buffer) × (take_input b ≡ done b') × IsBuffer b' × (content b' ≡ [])
unfolding take_input
take_input_lem b v =
    let (b', run, v', q) = retrieve_lem (readable_bytes b) v (omega arith) in
    (b', run, v', q ∙ drop-all (readable_bytes b) (content b) (omega (arith, length-content v)))

pub take_input-Consumes : Consumes take_input
take_input-Consumes b v = let (b', run, v', q) = take_input_lem b v in (b', run, v')

session_on_read_lem :
    (conn : Option ℕ) (l : List Bytes) (more : Bytes) (b : Buffer) (s : Tasks)
    → IsBuffer b
    → content b ≡ array l ++ more
    → length (array l ++ more) < 2 ^ 31
    → (b' : Buffer) × (session_on_read conn b s
        ≡ done (producer (record { conn = conn; vec_cmd = l }) s, b'))
      × IsBuffer b'
      × (content b' ≡ [])
unfolding session_on_read
session_on_read_lem conn l more b s v q h =
    let (b', run, v', empty) = take_input_lem b v in
    let given : Outcome (Option Tasks) → Outcome (Option Tasks × Buffer) =
      λ o. o >>= λ tasks. done (tasks, b') in
    (
      b',
      ap
            (λ (o : Outcome Buffer).
              o >>= λ b'. on_read conn (content b) s >>= λ tasks. done (tasks, b'))
            run
          ∙ ap (λ bytes. given (on_read conn bytes s)) q
          ∙ ap given (on_read-array conn l more s h),
      v',
      empty,
    )

-- A request that comes in one read, of less than 2 ^ 31 bytes, on a connection whose input buffer is
-- empty is offered to the queue as the task of that connection with the request's parameters, and the
-- buffer is empty again: bytes behind the request are not kept for the next read.
pub read_fd-session_on_read :
    (conn : Option ℕ) (errno_before : ℕ) (l : List Bytes) (more : Bytes) (b : Buffer) (s : Tasks)
    → IsBuffer b
    → content b ≡ []
    → length (array l ++ more) < 2 ^ 31
    → (b' : Buffer) × ((read_fd errno_before (got (array l ++ more)) b >>= λ r.
          session_on_read conn r.1 s)
        ≡ done (producer (record { conn = conn; vec_cmd = l }) s, b'))
      × IsBuffer b'
      × (content b' ≡ [])
read_fd-session_on_read conn errno_before l more b s v none_left h =
    let bytes = array l ++ more in
    let (saved, b1, run, v1, q) = read_fd_lem errno_before (got bytes) v in
    let (b', run', v', empty) =
      session_on_read_lem conn l more b1 s v1 (q ∙ ap (λ t. t ++ bytes) none_left) h in
    (
      b',
      ap (λ (o : Outcome ((ℤ × Option ℕ) × Buffer)). o >>= λ r. session_on_read conn r.1 s) run
          ∙ run',
      v',
      empty,
    )
