-- ===== src/Buffer/Integers/RoundTrip.antt =====
-- Integers that are put in front of a buffer.
use yedis.Prelude.{
  ℕ, zero, suc, ◌+◌, ◌-◌, ◌*◌, ◌/◌, ◌%◌, ◌≤◌, ◌<◌, ◌≡◌, refl, sym, ap, ◌∙◌, [], ◌∷◌, ◌++◌, Bytes,
  length, length-append, take, drop, take-length-append, drop-length-append, if◌then◌else◌, arith,
  le→leb,
}
use yedis.Prelude.Memory.{
  overwrite, bytes_at, length-overwrite, bytes_at-overwrite_before, take-bytes_at,
}
use yedis.Outcome.{Outcome, done, fault, ◌>>=◌}
use yedis.Buffer.{Buffer, readable_bytes, content, assert, retrieve, prepend}
use yedis.Buffer.Space.{IsBuffer, length-content}
use yedis.Buffer.Take.{retrieve_lem}
use yedis.Buffer.Integers.{big_endian, value256, peek_int, read_int, prepend_int}

-- The number of values of an integer of `size` bytes.
abbrev pub values : ℕ → ℕ
values zero = 1
values (suc size) = values size * 256

pub length-big_endian : (size x : ℕ) → length (big_endian size x) ≡ size
unfolding big_endian
length-big_endian zero x = refl
length-big_endian (suc size) x = omega (
  arith,
  length-big_endian size (x / 256),
  length-append (big_endian size (x / 256)) (x % 256 ∷ []),
)

value256-append : (acc c : ℕ) (s : Bytes) → value256 acc (s ++ c ∷ []) ≡ value256 acc s * 256 + c
unfolding value256
value256-append acc c [] = refl
value256-append acc c (d ∷ s) = value256-append (acc * 256 + d) c s

pub value256-big_endian : (size x : ℕ) → x < values size → value256 0 (big_endian size x) ≡ x
unfolding big_endian value256
value256-big_endian zero x h = omega arith
value256-big_endian (suc size) x h = omega (
  arith,
  value256-append 0 (x % 256) (big_endian size (x / 256)),
  value256-big_endian size (x / 256) (omega arith),
)

abbrev prepended : Bytes → Buffer → Buffer
prepended bytes b = record b {
  buffer = overwrite (b.reader_index - length bytes) bytes b.buffer;
  reader_index = b.reader_index - length bytes;
}

-- Where there is space in front, the bytes come before those that the buffer held.
pub prepend_lem :
    (bytes : Bytes) {b : Buffer}
    → IsBuffer b
    → length bytes ≤ b.reader_index
    → (b' : Buffer) × (prepend bytes b ≡ done b') × IsBuffer b' × (content b' ≡ bytes ++ content b)
unfolding prepend
prepend_lem bytes {b} v h =
    let at = b.reader_index - length bytes in
    let e = length-overwrite at bytes b.buffer in
    (
      prepended bytes b,
      ap (λ c. assert c (prepended bytes b)) (le→leb (length bytes) b.reader_index h),
      record { roomy = omega (arith, v); ordered = omega (arith, v); within = omega (arith, v) },
      bytes_at-overwrite_before at bytes b.buffer (readable_bytes b) (b.writer_index - at)
          b.reader_index (omega (arith, v)) (omega arith) (omega (arith, v)),
    )

peek_int_lem :
    (size x : ℕ) (rest : Bytes) {b : Buffer}
    → IsBuffer b
    → x < values size
    → content b ≡ big_endian size x ++ rest
    → (size ≤ readable_bytes b) × (peek_int size b ≡ done x)
peek_int_lem size x rest {b} v h q =
    let n = readable_bytes b in
    let fits : size ≤ n = omega (
      arith,
      length-content v,
      ap length q,
      length-append (big_endian size x) rest,
      length-big_endian size x,
    ) in
    let front : bytes_at b.reader_index size b.buffer ≡ big_endian size x =
      sym (take-bytes_at b.reader_index n size b.buffer fits)
      ∙ ap (take size) q
      ∙ ap (λ m. take m (big_endian size x ++ rest)) (sym (length-big_endian size x))
      ∙ take-length-append (big_endian size x) rest in
    (
      fits,
      ap (λ c. if c then done (value256 0 (bytes_at b.reader_index size b.buffer)) else fault)
            (le→leb size n fits)
          ∙ ap (λ s. done (value256 0 s)) front
          ∙ ap done (value256-big_endian size x h),
    )

-- An integer of any width that is put in front of a buffer, where there is space for it, is read
-- back as it was, and leaves the bytes that the buffer held.
pub read_int-prepend_int :
    (size x : ℕ) (b : Buffer)
    → IsBuffer b
    → size ≤ b.reader_index
    → x < values size
    → (b' : Buffer) × ((prepend_int size x b >>= read_int size) ≡ done (x, b'))
      × IsBuffer b'
      × (content b' ≡ content b)
read_int-prepend_int size x b v h lt =
    let bytes = big_endian size x in
    let l = length-big_endian size x in
    let (b', put, v', q) = prepend_lem bytes v (omega (arith, l)) in
    let (fits, seen) = peek_int_lem size x (content b) v' lt q in
    let (b'', taken, v'', q') = retrieve_lem size v' fits in
    (
      b'',
      ap (λ (r : Outcome Buffer). r >>= read_int size) put
          ∙ ap (λ (r : Outcome ℕ). r >>= λ y. retrieve size b' >>= λ b'. done (y, b')) seen
          ∙ ap (λ (r : Outcome Buffer). r >>= λ b'. done (x, b')) taken,
      v'',
      q'
          ∙ ap (drop size) q
          ∙ ap (λ m. drop m (bytes ++ content b)) (sym l)
          ∙ drop-length-append bytes (content b),
    )
