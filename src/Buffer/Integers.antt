-- ===== src/Buffer/Integers.antt =====
-- The integers of base/Buffer.h, in network byte order (net/Endian.h), for widths of 1, 2, 4 and 8
-- bytes. An integer of either sign is its bit pattern.
pub mod RoundTrip
use yedis.Prelude.{
  ℕ, zero, suc, ◌+◌, ◌-◌, ◌*◌, ◌/◌, ◌%◌, List, [], ◌∷◌, ◌++◌, Bytes, leb, if◌then◌else◌,
}
use yedis.Prelude.Memory.{bytes_at}
use yedis.Outcome.{Outcome, done, fault, ◌>>=◌}
use yedis.Buffer.{Buffer, readable_bytes, retrieve, append, prepend}

-- The bytes of `htobe16`, `htobe32` or `htobe64`, the most significant first.
unfoldable pub big_endian : ℕ → ℕ → Bytes
big_endian zero x = []
big_endian (suc k) x = big_endian k (x / 256) ++ x % 256 ∷ []

-- The value of such bytes behind `acc`: `be16toh` and so on.
unfoldable pub value256 : ℕ → Bytes → ℕ
value256 acc [] = acc
value256 acc (c ∷ s) = value256 (acc * 256 + c) s

-- With `sizeof x` bytes.
abbrev pub append_int : ℕ → ℕ → Buffer → Outcome Buffer
append_int size x b = append (big_endian size x) b

abbrev pub prepend_int : ℕ → ℕ → Buffer → Outcome Buffer
prepend_int size x b = prepend (big_endian size x) b

abbrev pub peek_int : ℕ → Buffer → Outcome ℕ
peek_int size b =
    if leb size (readable_bytes b)
    then done (value256 0 (bytes_at b.reader_index size b.buffer))
    else fault

abbrev pub read_int : ℕ → Buffer → Outcome (ℕ × Buffer)
read_int size b = do x ← peek_int size b; b' ← retrieve size b; done (x, b')

unfoldable pub append_int64 : ℕ → Buffer → Outcome Buffer
append_int64 = append_int 8

unfoldable pub append_int32 : ℕ → Buffer → Outcome Buffer
append_int32 = append_int 4

unfoldable pub append_int16 : ℕ → Buffer → Outcome Buffer
append_int16 = append_int 2

unfoldable pub append_int8 : ℕ → Buffer → Outcome Buffer
append_int8 = append_int 1

unfoldable pub read_int64 : Buffer → Outcome (ℕ × Buffer)
read_int64 = read_int 8

unfoldable pub read_int32 : Buffer → Outcome (ℕ × Buffer)
read_int32 = read_int 4

unfoldable pub read_int16 : Buffer → Outcome (ℕ × Buffer)
read_int16 = read_int 2

unfoldable pub read_int8 : Buffer → Outcome (ℕ × Buffer)
read_int8 = read_int 1

unfoldable pub peek_int64 : Buffer → Outcome ℕ
peek_int64 = peek_int 8

unfoldable pub peek_int32 : Buffer → Outcome ℕ
peek_int32 = peek_int 4

unfoldable pub peek_int16 : Buffer → Outcome ℕ
peek_int16 = peek_int 2

unfoldable pub peek_int8 : Buffer → Outcome ℕ
peek_int8 = peek_int 1

unfoldable pub prepend_int64 : ℕ → Buffer → Outcome Buffer
prepend_int64 = prepend_int 8

unfoldable pub prepend_int32 : ℕ → Buffer → Outcome Buffer
prepend_int32 = prepend_int 4

unfoldable pub prepend_int16 : ℕ → Buffer → Outcome Buffer
prepend_int16 = prepend_int 2

unfoldable pub prepend_int8 : ℕ → Buffer → Outcome Buffer
prepend_int8 = prepend_int 1

unfoldable pub retrieve_int64 : Buffer → Outcome Buffer
retrieve_int64 = retrieve 8

unfoldable pub retrieve_int32 : Buffer → Outcome Buffer
retrieve_int32 = retrieve 4

unfoldable pub retrieve_int16 : Buffer → Outcome Buffer
retrieve_int16 = retrieve 2

unfoldable pub retrieve_int8 : Buffer → Outcome Buffer
retrieve_int8 = retrieve 1
