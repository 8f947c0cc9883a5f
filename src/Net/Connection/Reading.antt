-- ===== src/Net/Connection/Reading.antt =====
-- Reading from a connection.
use yedis.Prelude.{ℕ, zero, suc, ◌≡◌, refl, ap, ◌∙◌, Option, List, [], ◌∷◌, ◌++◌, arith}
use yedis.Prelude.Int.{ℤ, pos, negsuc}
use yedis.Outcome.{Outcome, done, ◌>>=◌}
use yedis.Buffer.{Buffer, Read, content}
use yedis.Buffer.ReadFd.{result_of, read_fd_lem}
use yedis.Net.Connection.{Notice, message_called, Connection, message_if, handle_read}
use yedis.Net.Connection.Orderly.{Consumes, closes, closes-append, openings-append, Orderly}

module _ {K : Type 0} where
  -- Nothing is closed between the two states.
  pub record Unclosed (c c' : Connection K) : Type 0 where
    pub orderly : Orderly c'
    pub same_state : c'.state ≡ c.state
    pub same_poller : c'.poller ≡ c.poller
    pub same_closes : closes c'.calls ≡ closes c.calls

  message_if_lem :
      (on_message : Buffer → Outcome Buffer) (n : ℤ) {c : Connection K}
      → Consumes on_message
      → Orderly c
      → (c' : Connection K) × (message_if on_message n c ≡ done c') × Unclosed c c'
  message_if_lem on_message (negsuc n) {c} takes v =
      (c, refl, record { orderly = v; same_state = refl; same_poller = refl; same_closes = refl })
  message_if_lem on_message (pos zero) {c} takes v =
      (c, refl, record { orderly = v; same_state = refl; same_poller = refl; same_closes = refl })
  message_if_lem on_message (pos (suc n)) {c} takes v =
      let (b, run, v') = takes c.input v.is_buffer in
      let told : List Notice = message_called (content c.input) ∷ [] in
      let k = closes-append c.calls told in
      (
        record c { input = b; calls = c.calls ++ told },
        ap
            (λ (o : Outcome Buffer).
              o >>= λ b. done (record c { input = b; calls = c.calls ++ told }))
            run,
        record {
          orderly = record {
            is_buffer = v';
            few_closes = omega (arith, k, v.few_closes);
            few_openings = omega (arith, openings-append c.calls told, v.few_openings);
          };
          same_state = refl;
          same_poller = refl;
          same_closes = omega (arith, k);
        },
      )

  pub handle_read_lem :
      (on_message : Buffer → Outcome Buffer) (e : ℕ) (r : Read) {c : Connection K}
      → Consumes on_message
      → Orderly c
      → (c' : Connection K) × (handle_read on_message e r c ≡ done c') × Unclosed c c'
  unfolding handle_read
  handle_read_lem on_message e r {c} takes v =
      let (saved, b, run, v', q) = read_fd_lem e r v.is_buffer in
      let w : Orderly (record c { input = b }) = record {
        is_buffer = v';
        few_closes = v.few_closes;
        few_openings = v.few_openings;
      } in
      let (c', run', u) = message_if_lem on_message (result_of r) takes w in
      (
        c',
        ap
              (λ (o : Outcome ((ℤ × Option ℕ) × Buffer)).
                o >>= λ q. message_if on_message q.0.0 (record c { input = q.1 }))
              run
            ∙ run',
        record {
          orderly = u.orderly;
          same_state = u.same_state;
          same_poller = u.same_poller;
          same_closes = u.same_closes;
        },
      )

module _ {K : Type 0} (on_message : Buffer → Outcome Buffer) where
  abbrev pub read_all : List (ℕ × Read) → Connection K → Outcome (Connection K)
  read_all [] c = done c
  read_all ((e, r) ∷ reads) c = handle_read on_message e r c >>= read_all reads

  -- However often a connection is readable, and whatever a read gives, also an error or the end of
  -- the stream, the state of an orderly connection, the events its loop waits for, and how often the
  -- close callback was called stay as they are: a peer that has gone is not noticed.
  pub read_all-Unclosed :
      (reads : List (ℕ × Read)) (c : Connection K)
      → Consumes on_message
      → Orderly c
      → (c' : Connection K) × (read_all reads c ≡ done c') × Unclosed c c'
  read_all-Unclosed [] c takes v =
      (c, refl, record { orderly = v; same_state = refl; same_poller = refl; same_closes = refl })
  read_all-Unclosed ((e, r) ∷ reads) c takes v =
      let (c', run, u) = handle_read_lem on_message e r takes v in
      let (c'', run', u') = read_all-Unclosed reads c' takes u.orderly in
      (
        c'',
        ap (λ (o : Outcome (Connection K)). o >>= read_all reads) run ∙ run',
        record {
          orderly = u'.orderly;
          same_state = u'.same_state ∙ u.same_state;
          same_poller = u'.same_poller ∙ u.same_poller;
          same_closes = u'.same_closes ∙ u.same_closes;
        },
      )
