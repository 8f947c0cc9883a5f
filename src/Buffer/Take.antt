-- ===== src/Buffer/Take.antt =====
-- Taking bytes off the front of a buffer.
use yedis.Prelude.{
  ℕ, ◌+◌, ◌-◌, ◌≤◌, ◌≡◌, refl, sym, ap, ◌∙◌, Bool, [], take, drop, ltb, if◌then◌else◌, Bool-cases,
  inl, inr, arith, le→leb,
}
use yedis.Prelude.Memory.{bytes_at, take-bytes_at, drop-bytes_at}
use yedis.Outcome.{Outcome, done, ◌>>=◌}
use yedis.Buffer.{Buffer, readable_bytes, content, retrieve, retrieve_all, retrieve_as_string}
use yedis.Buffer.Space.{IsBuffer}

pub retrieve_all_lem :
    {b : Buffer} → IsBuffer b → IsBuffer (retrieve_all b) × (content (retrieve_all b) ≡ [])
unfolding retrieve_all
retrieve_all_lem v =
    (record { roomy = omega arith; ordered = omega arith; within = omega arith }, refl)

abbrev fewer : ℕ → Buffer → Bool → Outcome Buffer
fewer k b c = done (if c then record b { reader_index = b.reader_index + k } else retrieve_all b)

retrieve-fewer :
    (k : ℕ) (b : Buffer)
    → k ≤ readable_bytes b
    → retrieve k b ≡ fewer k b (ltb k (readable_bytes b))
unfolding retrieve
retrieve-fewer k b h = rw (le→leb k (readable_bytes b) h) refl

-- The bytes behind the first `k` stay.
pub retrieve_lem :
    (k : ℕ) {b : Buffer}
    → IsBuffer b
    → k ≤ readable_bytes b
    → (b' : Buffer) × (retrieve k b ≡ done b') × IsBuffer b' × (content b' ≡ drop k (content b))
retrieve_lem k {b} v h =
    let n = readable_bytes b in
    let start = b.reader_index + k in
    let others = drop-bytes_at b.reader_index n k start (n - k) b.buffer (omega arith) refl in
    elim (Bool-cases (ltb k n)) [
      | inl e ↦ (
        record b { reader_index = start },
        retrieve-fewer k b h ∙ ap (fewer k b) e,
        record { roomy = omega (arith, v); ordered = ground (arith, v); within = omega (arith, v) },
        ap (λ m. bytes_at start m b.buffer) (omega arith) ∙ sym others,
      )
      | inr e ↦
          let none_left : n - k ≡ 0 = ground arith in
          let (all, nothing) = retrieve_all_lem v in
          (
            retrieve_all b,
            retrieve-fewer k b h ∙ ap (fewer k b) e,
            all,
            nothing ∙ sym (others ∙ ap (λ m. bytes_at start m b.buffer) none_left),
          )
    ]

retrieve_as_string-retrieve :
    (k : ℕ) (b : Buffer)
    → k ≤ readable_bytes b
    → retrieve_as_string k b
      ≡ (retrieve k b >>= λ b'. done (bytes_at b.reader_index k b.buffer, b'))
unfolding retrieve_as_string
retrieve_as_string-retrieve k b h =
    ap
      (λ c.
        if c
        then (retrieve k b >>= λ b'. done (bytes_at b.reader_index k b.buffer, b'))
        else Outcome.fault)
      (le→leb k (readable_bytes b) h)

-- The first `k` bytes are returned, and those behind them stay.
pub retrieve_as_string_lem :
    (k : ℕ) {b : Buffer}
    → IsBuffer b
    → k ≤ readable_bytes b
    → (b' : Buffer) × (retrieve_as_string k b ≡ done (take k (content b), b'))
      × IsBuffer b'
      × (content b' ≡ drop k (content b))
retrieve_as_string_lem k {b} v h =
    let (b', run, v', q) = retrieve_lem k v h in
    (
      b',
      retrieve_as_string-retrieve k b h
          ∙ ap (λ (r : Outcome Buffer). r >>= λ b'. done (bytes_at b.reader_index k b.buffer, b'))
              run
          ∙ ap (λ s. done (s, b'))
              (sym (take-bytes_at b.reader_index (readable_bytes b) k b.buffer h)),
      v',
      q,
    )
