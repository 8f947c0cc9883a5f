-- ===== src/Buffer/Shrink.antt =====
-- `shrink`, over the bytes that a buffer holds.
use yedis.Prelude.{ℕ, ◌+◌, ◌^◌, ◌≡◌, refl, sym, ap, ◌∙◌, true, false, ◌++◌, Bytes, take, ltb, arith}
use yedis.Prelude.Memory.{bytes_at, take-bytes_at}
use yedis.Outcome.{Outcome, done, fault, ◌>>=◌}
use yedis.Buffer.{
  Buffer, initial_size, new_buffer, readable_bytes, content, assert, ensure_writable_bytes, append,
  int_length, shrink,
}
use yedis.Buffer.Space.{
  IsBuffer, Roomy, new_buffer-IsBuffer, ensure_writable_bytes-Roomy, append_lem,
}

-- What is copied when the length has gone through an `int`.
abbrev pub piece_of : Buffer → Bytes
piece_of b = bytes_at b.reader_index (int_length (readable_bytes b)) b.buffer

-- Those are the first bytes.
pub piece_of-take : (b : Buffer) → piece_of b ≡ take (int_length (readable_bytes b)) (content b)
piece_of-take b =
    let n = readable_bytes b in
    sym (take-bytes_at b.reader_index n (int_length n) b.buffer (omega arith))

shrink-piece :
    (reserve : ℕ) (b : Buffer)
    → shrink reserve b ≡ (
        ensure_writable_bytes (readable_bytes b + reserve) (new_buffer initial_size) >>= λ other.
        assert (ltb (int_length (readable_bytes b)) (2 ^ 31)) (piece_of b) >>= λ piece.
        append piece other >>= λ o. done o)
unfolding shrink
shrink-piece reserve b = refl

pub shrunk :
    (reserve : ℕ) {b : Buffer}
    → IsBuffer b
    → ltb (int_length (readable_bytes b)) (2 ^ 31) ≡ true
    → (b' : Buffer) × (shrink reserve b ≡ done b') × Roomy 0 (piece_of b) b'
shrunk reserve {b} v e =
    let (fresh, nothing) = new_buffer-IsBuffer initial_size in
    let (other, made, q) = ensure_writable_bytes-Roomy (readable_bytes b + reserve) fresh in
    let (b', run, p) = append_lem (piece_of b) q.is_buffer in
    let last = λ (r : Outcome Buffer). r >>= λ o. done o in
    let middle = λ (r : Outcome Bytes). r >>= λ piece. last (append piece other) in
    (
      b',
      shrink-piece reserve b
          ∙ ap
              (λ r. r >>= λ other.
                assert (ltb (int_length (readable_bytes b)) (2 ^ 31)) (piece_of b) >>= λ piece.
                append piece other >>= λ o. done o)
              made
          ∙ ap (λ c. middle (assert c (piece_of b))) e
          ∙ ap last run,
      record {
        is_buffer = p.is_buffer;
        holds = p.holds ∙ ap (λ s. s ++ piece_of b) (q.holds ∙ nothing);
        room = omega arith;
      },
    )

pub shrink-long :
    (reserve : ℕ) (b : Buffer)
    → ltb (int_length (readable_bytes b)) (2 ^ 31) ≡ false
    → shrink reserve b ≡ fault
shrink-long reserve b e =
    let (fresh, nothing) = new_buffer-IsBuffer initial_size in
    let (other, made, q) = ensure_writable_bytes-Roomy (readable_bytes b + reserve) fresh in
    shrink-piece reserve b
    ∙ ap
        (λ r. r >>= λ other.
          assert (ltb (int_length (readable_bytes b)) (2 ^ 31)) (piece_of b) >>= λ piece.
          append piece other >>= λ o. done o)
        made
    ∙ ap (λ c. assert c (piece_of b) >>= λ piece. append piece other >>= λ o. done o) e
