-- ===== src/Buffer/ReadFd.antt =====
-- `readFd`, over the bytes that a buffer holds.
use yedis.Prelude.{
  ℕ, ◌+◌, ◌≡◌, refl, sym, ap, ◌∙◌, Bool, [], ◌∷◌, ◌++◌, append-nil, append_assoc, Bytes, length,
  take, drop, length-take, Option, none, some, leb, if◌then◌else◌, Bool-cases, inl, inr, arith,
}
use yedis.Prelude.Int.{ℤ, pos, negsuc}
use yedis.Prelude.Memory.{take-all, take-drop}
use yedis.Outcome.{Outcome, done, ◌>>=◌}
use yedis.Buffer.{
  Buffer, Read, failed, got, writable_bytes, content, append, read_fd, taken_in, copied,
}
use yedis.Buffer.Space.{IsBuffer, Roomy, append_lem, written-Roomy, written}

abbrev pub bytes_of : Read → Bytes
bytes_of (failed e) = []
bytes_of (got bytes) = bytes

taken_in-Roomy :
    (bytes : Bytes) {b : Buffer}
    → IsBuffer b
    → (b' : Buffer) × (taken_in bytes b ≡ done b') × Roomy 0 (content b ++ bytes) b'
taken_in-Roomy bytes {b} v =
    let n = writable_bytes b in
    let choice = λ (c : Bool).
      if c
      then done (record (copied (take n bytes) b) { writer_index = b.writer_index + length bytes })
      else append (drop n bytes)
          (record (copied (take n bytes) b) { writer_index = length b.buffer }) in
    elim (Bool-cases (leb (length bytes) n)) [
      | inl e ↦ (
        written bytes b,
        ap choice e
            ∙ ap (λ s. done (record (copied s b) { writer_index = b.writer_index + length bytes }))
                (take-all n bytes (ground arith)),
        written-Roomy bytes (content b) (length bytes) refl
            (record { is_buffer = v; holds = refl; room = ground arith }),
      )
      | inr e ↦
          let first = take n bytes in
          let long : length first ≡ n = ground (arith, length-take n bytes) in
          let q =
            written-Roomy first (content b) (length first) refl
              (record { is_buffer = v; holds = refl; room = omega arith }) in
          let (b', run, p) = append_lem (drop n bytes) q.is_buffer in
          (
            b',
            ap choice e
                ∙ ap (λ w. append (drop n bytes) (record (copied first b) { writer_index = w }))
                    (omega (arith, v))
                ∙ run,
            record {
              is_buffer = p.is_buffer;
              holds =
                  p.holds
                  ∙ ap (λ s. s ++ drop n bytes) q.holds
                  ∙ append_assoc (content b) first (drop n bytes)
                  ∙ ap (λ s. content b ++ s) (take-drop n bytes);
              room = omega arith;
            },
          )
    ]

-- What `read_fd` returns.
abbrev pub result_of : Read → ℤ
result_of (failed e) = negsuc 0
result_of (got bytes) = pos (length bytes)

-- Reading fails no assertion, and puts the bytes at the end.
pub read_fd_lem :
    (e : ℕ) (r : Read) {b : Buffer}
    → IsBuffer b
    → (saved : Option ℕ) × (b' : Buffer) × (read_fd e r b ≡ done ((result_of r, saved), b'))
      × IsBuffer b'
      × (content b' ≡ content b ++ bytes_of r)
unfolding read_fd
read_fd_lem e (failed n) {b} v = (some n, b, refl, v, sym (append-nil (content b)))
read_fd_lem e (got []) {b} v = (some e, b, refl, v, sym (append-nil (content b)))
read_fd_lem e (got (c ∷ bytes)) {b} v =
    let (b', run, q) = taken_in-Roomy (c ∷ bytes) v in
    (
      none,
      b',
      ap (λ (o : Outcome Buffer). o >>= λ b'. done ((pos (length (c ∷ bytes)), none), b')) run,
      q.is_buffer,
      q.holds,
    )
