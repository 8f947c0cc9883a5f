-- ===== src/Buffer/Space.antt =====
-- Making room in a buffer, and writing to it.
use yedis.Prelude.{
  ℕ, ◌+◌, ◌-◌, ◌≤◌, ◌<◌, ◌≡◌, refl, ap, ◌∙◌, Bool, [], ◌++◌, Bytes, length, length-append,
  replicate, leb, ltb, if◌then◌else◌, Bool-cases, inl, inr, arith, lt→ltb, le→leb, ltb→lt,
}
use yedis.Prelude.Memory.{
  length-replicate, length-overwrite, bytes_at-overwrite_after, bytes_at-append, length-bytes_at,
}
use yedis.Outcome.{Outcome, done, ◌>>=◌}
use yedis.Buffer.{
  Buffer, cheap_prepend, new_buffer, readable_bytes, writable_bytes, prependable_bytes, content,
  assert, moved, make_space, ensure_writable_bytes, has_written, copied, append,
}

-- The indices are in order, within the block.
pub record IsBuffer (b : Buffer) : Type 0 where
  pub roomy : cheap_prepend ≤ length b.buffer
  pub ordered : b.reader_index ≤ b.writer_index
  pub within : b.writer_index ≤ length b.buffer

pub length-content : {b : Buffer} → IsBuffer b → length (content b) ≡ readable_bytes b
length-content {b} v = length-bytes_at b.reader_index (readable_bytes b) b.buffer (omega arith)

pub new_buffer-IsBuffer : (n : ℕ) → IsBuffer (new_buffer n) × (content (new_buffer n) ≡ [])
unfolding new_buffer
new_buffer-IsBuffer n =
    let e = length-replicate (cheap_prepend + n) 0 in
    (record { roomy = omega arith; ordered = omega arith; within = omega arith }, refl)

-- What an operation comes to that gives a buffer which holds `s`, with room for `n` bytes.
pub record Roomy (n : ℕ) (s : Bytes) (b : Buffer) : Type 0 where
  pub is_buffer : IsBuffer b
  pub holds : content b ≡ s
  pub room : n ≤ writable_bytes b

abbrev pub grown : ℕ → Buffer → Buffer
grown len b = record b { buffer = b.buffer ++ replicate (b.writer_index + len - length b.buffer) 0 }

grown-Roomy :
    (len : ℕ) {b : Buffer}
    → IsBuffer b
    → writable_bytes b < len
    → Roomy len (content b) (grown len b)
grown-Roomy len {b} v h =
    let n = b.writer_index + len - length b.buffer in
    let e = length-append b.buffer (replicate n 0) in
    let r = length-replicate n 0 in
    record {
      is_buffer = record { roomy = omega arith; ordered = omega arith; within = omega arith };
      holds =
          bytes_at-append b.reader_index (readable_bytes b) b.buffer (replicate n 0) (omega arith);
      room = omega arith;
    }

moved-Roomy :
    (len : ℕ) {b : Buffer}
    → IsBuffer b
    → len + cheap_prepend ≤ writable_bytes b + prependable_bytes b
    → Roomy len (content b) (moved b)
moved-Roomy len {b} v h =
    let e = length-overwrite cheap_prepend (content b) b.buffer in
    let c = length-content v in
    record {
      is_buffer = record { roomy = omega arith; ordered = omega arith; within = omega arith };
      holds =
          bytes_at-overwrite_after cheap_prepend 0 cheap_prepend
            (cheap_prepend + readable_bytes b - cheap_prepend) (content b) b.buffer (omega arith)
            (omega arith) (omega arith);
      room = omega arith;
    }

make_space-Roomy :
    (len : ℕ) {b : Buffer}
    → IsBuffer b
    → writable_bytes b < len
    → (b' : Buffer) × (make_space len b ≡ done b') × Roomy len (content b) b'
unfolding make_space
make_space-Roomy len {b} v h =
    elim (Bool-cases (ltb (writable_bytes b + prependable_bytes b) (len + cheap_prepend))) [
      | inl e ↦ (grown len b, rw (e, if◌then◌else◌) refl, grown-Roomy len v h)
      | inr e ↦ (
        moved b,
        rw (e, if◌then◌else◌)
            (ap (λ c. assert c (moved b)) (lt→ltb cheap_prepend b.reader_index (ground arith))),
        moved-Roomy len v (ground arith),
      )
    ]

pub ensure_writable_bytes-Roomy :
    (len : ℕ) {b : Buffer}
    → IsBuffer b
    → (b' : Buffer) × (ensure_writable_bytes len b ≡ done b') × Roomy len (content b) b'
unfolding ensure_writable_bytes
ensure_writable_bytes-Roomy len {b} v =
    let last = λ (r : Outcome Buffer). r >>= λ b'. assert (leb len (writable_bytes b')) b' in
    let choice = λ (c : Bool). last (if c then make_space len b else done b) in
    elim (Bool-cases (ltb (writable_bytes b) len)) [
      | inl e ↦
          let (b', run, q) = make_space-Roomy len v (ltb→lt _ _ e) in
          (
            b',
            ap choice e
                ∙ ap last run
                ∙ ap (λ c. assert c b') (le→leb len (writable_bytes b') q.room),
            q,
          )
      | inr e ↦ (
        b,
        ap choice e ∙ ap (λ c. assert c b) (le→leb len (writable_bytes b) (ground arith)),
        record { is_buffer = v; holds = refl; room = ground arith },
      )
    ]

abbrev pub written : Bytes → Buffer → Buffer
written bytes b = record (copied bytes b) { writer_index = b.writer_index + length bytes }

pub written-Roomy :
    (bytes s : Bytes) {b : Buffer} (n : ℕ)
    → n ≡ length bytes
    → Roomy n s b
    → Roomy 0 (s ++ bytes) (written bytes b)
written-Roomy bytes s {b} n h q =
    let v = q.is_buffer in
    let e = length-overwrite b.writer_index bytes b.buffer in
    record {
      is_buffer = record {
        roomy = omega (arith, v);
        ordered = omega (arith, v);
        within = omega (arith, v, q.room);
      };
      holds =
          bytes_at-overwrite_after b.reader_index (readable_bytes b) b.writer_index
            (b.writer_index + length bytes - b.reader_index) bytes b.buffer (omega (arith, v))
            (omega (arith, v)) (omega (arith, v, q.room))
          ∙ ap (λ l. l ++ bytes) q.holds;
      room = omega arith;
    }

pub append_lem :
    (bytes : Bytes) {b : Buffer}
    → IsBuffer b
    → (b' : Buffer) × (append bytes b ≡ done b') × Roomy 0 (content b ++ bytes) b'
unfolding append
append_lem bytes {b} v =
    let (b₁, run, q) = ensure_writable_bytes-Roomy (length bytes) v in
    let e = length-overwrite b₁.writer_index bytes b₁.buffer in
    (
      written bytes b₁,
      ap (λ r. r >>= λ b'. has_written (length bytes) (copied bytes b')) run
          ∙ ap (λ c. assert c (written bytes b₁))
              (le→leb (length bytes) (writable_bytes (copied bytes b₁)) (omega (arith, q.room))),
      written-Roomy bytes (content b) (length bytes) refl q,
    )
