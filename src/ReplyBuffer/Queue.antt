-- ===== src/ReplyBuffer/Queue.antt =====
-- The bytes that a reply buffer holds.
use Prim.Native.Nat.{min}
use yedis.Prelude.{
  ℕ, zero, suc, ◌+◌, ◌-◌, ◌%◌, ◌^◌, ◌≤◌, ◌<◌, ◌≡◌, refl, sym, ap, ◌∙◌, Bool, true, false, some, [],
  ◌∷◌, ◌++◌, Bytes, length, take, drop, length-take, append-nil, leb, ltb, ◌==◌, if◌then◌else◌,
  Bool-cases, inl, inr, arith, le→leb, ◌||◌,
}
use yedis.Prelude.Memory.{
  drop-all, overwrite, bytes_at, length-bytes_at, length-overwrite, bytes_at-overwrite_before,
  bytes_at-overwrite_after, take-bytes_at, drop-bytes_at, take-all,
}
use yedis.Format
use yedis.Outcome.{Outcome, done, ◌>>=◌}
use yedis.Buffer.{assert}
use yedis.ReplyBuffer.{
  ReplyBuffer, max_buffer_size, readable_size, writable_size, held, moved, assure_space, copied,
  adjust_write_ptr, push_data_at, push_data, peek_data_at, peek_data,
}
use yedis.ReplyBuffer.Grow.{IsReply, Same, grow_lem}

pub length-held : {rb : ReplyBuffer} → IsReply rb → length (held rb) ≡ readable_size rb
length-held {rb} v = length-bytes_at rb.read_pos (readable_size rb) rb.vec_buffer (omega (arith, v))

moved_lem :
    (rb : ReplyBuffer)
    → IsReply rb
    → Same rb (moved rb) × (writable_size (moved rb) ≡ writable_size rb + rb.read_pos)
moved_lem rb v = elim (Bool-cases (ltb 0 rb.read_pos)) [
  | inl e ↦
      let l = length-overwrite 0 (held rb) rb.vec_buffer in
      let many = length-held v in
      rw e (
        record {
          is_reply = record { ordered = omega arith; within = omega (arith, v, l) };
          holds =
              ap (λ m. bytes_at 0 m (overwrite 0 (held rb) rb.vec_buffer)) (omega arith)
              ∙ bytes_at-overwrite_before 0 (held rb) rb.vec_buffer 0 (readable_size rb)
                  (readable_size rb) (omega (arith, many)) (omega (arith, many)) (omega (arith, v))
              ∙ append-nil (held rb);
          many = omega arith;
        },
        omega (arith, v, l),
      )
  | inr e ↦ rw e (record { is_reply = v; holds = refl; many = refl }, ground arith)
]

record Spacious (size : ℕ) (rb rb' : ReplyBuffer) : Type 0 where
  same : Same rb rb'
  room : size ≤ writable_size rb'

assure_space_lem :
    (size : ℕ) {rb : ReplyBuffer}
    → IsReply rb
    → size + readable_size rb ≤ max_buffer_size
    → (rb' : ReplyBuffer) × (assure_space size rb ≡ done rb') × Spacious size rb rb'
unfolding assure_space
assure_space_lem size {rb} v small = elim (Bool-cases (leb size (writable_size rb))) [
  | inl e ↦ rw e (
    rb,
    refl,
    record { same = record { is_reply = v; holds = refl; many = refl }; room = ground arith },
  )
  | inr e ↦
      let (rb', run, g) =
        grow_lem (suc size) size (length rb.vec_buffer) v refl small (omega (arith, v)) in
      let (m, more) = moved_lem rb' g.same.is_reply in
      rw e (
        moved rb',
        ap (λ (o : Outcome ReplyBuffer). o >>= λ rb'. done (moved rb')) run,
        record {
          same = record {
            is_reply = m.is_reply;
            holds = m.holds ∙ g.same.holds;
            many = m.many ∙ g.same.many;
          };
          room = omega (arith, more, g.room);
        },
      )
]

pub record Holds (rb : ReplyBuffer) (bytes : Bytes) : Type 0 where
  pub is_reply : IsReply rb
  pub holds : held rb ≡ bytes

push_data_at-room :
    (c : ℕ) (d : Bytes) (rb : ReplyBuffer)
    → (readable_size rb == max_buffer_size) ≡ false
    → push_data_at (some (c ∷ d)) 0 rb ≡ (
        assure_space ((length (c ∷ d) + 0) % 2 ^ 64) rb >>= λ rb'.
        assert
          (leb ((length (c ∷ d) + 0) % 2 ^ 64) (writable_size rb'))
          (length (c ∷ d), copied (c ∷ d) 0 rb'))
unfolding push_data_at
push_data_at-room c d rb e = rw (e, if◌then◌else◌) refl

push_data_at_lem :
    (c : ℕ) (d : Bytes) {rb : ReplyBuffer}
    → IsReply rb
    → length (c ∷ d) + readable_size rb ≤ max_buffer_size
    → (rb' : ReplyBuffer) × (push_data_at (some (c ∷ d)) 0 rb
        ≡ done (length (c ∷ d), copied (c ∷ d) 0 rb'))
      × Spacious (length (c ∷ d)) rb rb'
push_data_at_lem c d {rb} v small =
    let size = length (c ∷ d) in
    let whole : (size + 0) % 2 ^ 64 ≡ size = omega arith in
    let apart : (readable_size rb == max_buffer_size) ≡ false = ground arith in
    let (rb', run, q) = assure_space_lem size v small in
    let copy : ReplyBuffer → ℕ × ReplyBuffer = λ rb'. (size, copied (c ∷ d) 0 rb') in
    let last : ℕ → Outcome ReplyBuffer → Outcome (ℕ × ReplyBuffer) =
      λ total o. o >>= λ rb'. assert (leb total (writable_size rb')) (copy rb') in
    (
      rb',
      push_data_at-room c d rb apart
          ∙ ap (λ total. last total (assure_space total rb)) whole
          ∙ ap (last size) run
          ∙ ap (λ b. assert b (copy rb')) (le→leb size (writable_size rb') q.room),
      q,
    )

pushed-Holds :
    (bytes : Bytes) {rb rb' : ReplyBuffer}
    → Spacious (length bytes) rb rb'
    → Holds (adjust_write_ptr (length bytes) (copied bytes 0 rb')) (held rb ++ bytes)
pushed-Holds bytes {rb} {rb'} q =
    let v = q.same.is_reply in
    let l = length-overwrite (rb'.write_pos + 0) bytes rb'.vec_buffer in
    let n = readable_size rb' in
    record {
      is_reply = record { ordered = omega (arith, v); within = omega (arith, v, l, q.room) };
      holds =
          bytes_at-overwrite_after rb'.read_pos n (rb'.write_pos + 0)
            (rb'.write_pos + length bytes - rb'.read_pos) bytes rb'.vec_buffer (omega (arith, v))
            (omega (arith, v)) (omega (arith, v, q.room))
          ∙ ap (λ s. s ++ bytes) q.same.holds;
    }

-- As long as fewer than 2 ^ 63 bytes are held, pushing bytes ends, fails no assertion, returns how
-- many there are and puts them at the end of those that the buffer holds.
pub push_data_lem :
    (bytes : Bytes) (rb : ReplyBuffer)
    → IsReply rb
    → length bytes + readable_size rb ≤ max_buffer_size
    → (rb' : ReplyBuffer) × (push_data (some bytes) rb ≡ done (length bytes, rb'))
      × Holds rb' (Format.push_data bytes (held rb))
unfolding push_data push_data_at
push_data_lem [] rb v small = (
  adjust_write_ptr 0 rb,
  refl,
  record {
    is_reply = record { ordered = omega (arith, v); within = omega (arith, v) };
    holds =
        ap (λ m. bytes_at rb.read_pos m rb.vec_buffer) (omega arith) ∙ sym (append-nil (held rb));
  },
)
push_data_lem (c ∷ d) rb v small =
    let (rb', run, q) = push_data_at_lem c d v small in
    (
      adjust_write_ptr (length (c ∷ d)) (copied (c ∷ d) 0 rb'),
      ap (λ (o : Outcome (ℕ × ReplyBuffer)). o >>= λ r. done (r.0, adjust_write_ptr r.0 r.1)) run,
      pushed-Holds (c ∷ d) q,
    )

take-none : (n : ℕ) (s : Bytes) → min n (length s) ≡ 0 → take n s ≡ []
take-none zero s h = refl
take-none (suc n) [] h = refl
take-none (suc n) (c ∷ s) h = absurd (omega arith)

peek_data_at-take :
    (size : ℕ) {rb : ReplyBuffer}
    → IsReply rb
    → size < 2 ^ 64
    → peek_data_at true size 0 rb ≡ take size (held rb)
unfolding peek_data_at
peek_data_at-take size {rb} v small =
    let n = readable_size rb in
    let l = length-held v in
    let inner =
      λ (b : Bool). bytes_at (rb.read_pos + 0) (if b then n - 0 else size) rb.vec_buffer in
    let outer = λ (b : Bool). if b then [] else inner (ltb n ((size + 0) % 2 ^ 64)) in
    elim (Bool-cases (size == 0 || leb n 0)) [
      | inl e ↦ ap outer e ∙ sym (take-none size (held rb) (ground (arith, l)))
      | inr e ↦ ap outer e ∙ elim (Bool-cases (ltb n ((size + 0) % 2 ^ 64))) [
        | inl p ↦
            ap inner p
            ∙ ap (λ r. bytes_at r (n - 0) rb.vec_buffer) (omega arith)
            ∙ ap (λ m. bytes_at rb.read_pos m rb.vec_buffer) (omega arith)
            ∙ sym (take-all size (held rb) (ground (arith, l)))
        | inr p ↦
            ap inner p
            ∙ ap (λ r. bytes_at r size rb.vec_buffer) (omega arith)
            ∙ sym (take-bytes_at rb.read_pos n size rb.vec_buffer (ground arith))
      ]
    ]

-- Peeking takes the first bytes, as many as there are, and leaves the others.
pub peek_data_lem :
    (size : ℕ) (rb : ReplyBuffer)
    → IsReply rb
    → size < 2 ^ 64
    → ((peek_data true size rb).0 ≡ take size (held rb))
      × Holds (peek_data true size rb).1 (drop size (held rb))
unfolding peek_data
peek_data_lem size rb v small =
    let taken = peek_data_at-take size v small in
    let n = readable_size rb in
    let l = length (take size (held rb)) in
    let e : length (peek_data_at true size 0 rb) ≡ l = ap length taken in
    let many : l ≡ min size n = length-take size (held rb) ∙ ap (min size) (length-held v) in
    let k = length (peek_data_at true size 0 rb) in
    (
      taken,
      record {
        is_reply = record { ordered = omega (arith, v, e, many); within = omega (arith, v) };
        holds = elim (Bool-cases (leb size n)) [
          | inl p ↦ sym (
              drop-bytes_at rb.read_pos n size (rb.read_pos + k) (rb.write_pos - (rb.read_pos + k))
                rb.vec_buffer (ground (arith, e, many, v)) (ground (arith, e, many)))
          | inr p ↦
              let none_left : rb.write_pos - (rb.read_pos + k) ≡ 0 = ground (arith, e, many) in
              ap (λ m. bytes_at (rb.read_pos + k) m rb.vec_buffer) none_left
              ∙ sym (drop-all size (held rb) (ground (arith, length-held v)))
        ];
      },
    )
