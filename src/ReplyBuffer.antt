-- ===== src/ReplyBuffer.antt =====
-- base/ReplyBuffer.h and base/ReplyBuffer.cpp: the buffer that the replies are written to, a vector
-- with a position where reading goes on and one where writing goes on.
-- The differences of positions are those of a buffer in which
-- `m_nReadPos <= m_nWritePos <= m_vecBuffer.size()`; a failed `assert` is a fault. A `resize` finds
-- the memory that it asks for. The lines that are printed to `std::cout` are left out.
pub mod Grow
pub mod Queue
mod Tests
use yedis.Prelude.{
  ℕ, zero, suc, ◌+◌, ◌-◌, ◌/◌, ◌%◌, ◌^◌, ◌≡◌, Bool, true, false, Option, none, some, List, [], ◌∷◌,
  ◌++◌, Bytes, length, take, replicate, leb, ltb, ◌==◌, if◌then◌else◌, ◌&&◌, ◌||◌, not,
}
use yedis.Prelude.Memory.{overwrite, bytes_at}
use yedis.Outcome.{Outcome, done, fault, out_of_fuel, ◌>>=◌}
use yedis.Buffer.{assert}

pub record ReplyBuffer : Type 0 where
  pub read_pos : ℕ
  pub write_pos : ℕ
  pub vec_buffer : Bytes

-- `ReplyBuffer()`
abbrev pub new_reply : ReplyBuffer
new_reply = record { read_pos = 0; write_pos = 0; vec_buffer = [] }

-- `std::numeric_limits<std::size_t>::max() / 2`
abbrev pub max_buffer_size : ℕ
max_buffer_size = (2 ^ 64 - 1) / 2

abbrev pub adjust_write_ptr : ℕ → ReplyBuffer → ReplyBuffer
adjust_write_ptr n rb = record rb { write_pos = rb.write_pos + n }

abbrev pub adjust_read_ptr : ℕ → ReplyBuffer → ReplyBuffer
adjust_read_ptr n rb = record rb { read_pos = rb.read_pos + n }

abbrev pub readable_size : ReplyBuffer → ℕ
readable_size rb = rb.write_pos - rb.read_pos

abbrev pub writable_size : ReplyBuffer → ℕ
writable_size rb = length rb.vec_buffer - rb.write_pos

abbrev pub is_empty : ReplyBuffer → Bool
is_empty rb = readable_size rb == 0

-- The bytes from `readAddr()` up to `writeAddr()`.
abbrev pub held : ReplyBuffer → Bytes
held rb = bytes_at rb.read_pos (readable_size rb) rb.vec_buffer

-- `m_vecBuffer.resize(n)`
abbrev pub resize : ℕ → ReplyBuffer → ReplyBuffer
resize n rb = record rb {
  vec_buffer = take n rb.vec_buffer ++ replicate (n - length rb.vec_buffer) 0;
}

-- The loop of `assureSpace`.
unfoldable pub grow : ℕ → ℕ → ℕ → ReplyBuffer → Outcome ReplyBuffer
grow zero size max_size rb = out_of_fuel
grow (suc fuel) size max_size rb = elim (ltb (writable_size rb + rb.read_pos) size) [
  | false ↦ done rb
  | true ↦ elim (ltb max_size 64) [
    | true ↦ grow fuel size 64 (resize 64 rb)
    | false ↦ elim (leb max_size max_buffer_size) [
      | true ↦ grow fuel size (max_size + max_size / 2) (resize (max_size + max_size / 2) rb)
      | false ↦ done rb
    ]
  ]
]

-- The bytes to be read are moved to the front.
abbrev pub moved : ReplyBuffer → ReplyBuffer
moved rb =
    if ltb 0 rb.read_pos
    then record {
      read_pos = 0;
      write_pos = readable_size rb;
      vec_buffer = overwrite 0 (held rb) rb.vec_buffer;
    }
    else rb

unfoldable pub assure_space : ℕ → ReplyBuffer → Outcome ReplyBuffer
unfolding grow
assure_space size rb =
    if leb size (writable_size rb)
    then done rb
    else (grow (suc size) size (length rb.vec_buffer) rb >>= λ rb'. done (moved rb'))

-- `memcpy` behind the write position
abbrev pub copied : Bytes → ℕ → ReplyBuffer → ReplyBuffer
copied d offset rb = record rb { vec_buffer = overwrite (rb.write_pos + offset) d rb.vec_buffer }

-- The number of bytes, and the buffer; `none` is a null pointer.
unfoldable pub push_data_at : Option Bytes → ℕ → ReplyBuffer → Outcome (ℕ × ReplyBuffer)
unfolding assure_space
push_data_at none offset rb = done (0, rb)
push_data_at (some []) offset rb = done (0, rb)
push_data_at (some (c ∷ d)) offset rb =
    let size = length (c ∷ d) in
    let total = (size + offset) % 2 ^ 64 in
    if readable_size rb == max_buffer_size
    then done (0, rb)
    else (assure_space total rb >>= λ rb'.
        assert (leb total (writable_size rb')) (size, copied (c ∷ d) offset rb'))

unfoldable pub push_data : Option Bytes → ReplyBuffer → Outcome (ℕ × ReplyBuffer)
unfolding push_data_at
push_data bytes rb = do r ← push_data_at bytes 0 rb; done (r.0, adjust_write_ptr r.0 r.1)

unfoldable pub write : Option Bytes → ReplyBuffer → Outcome (ℕ × ReplyBuffer)
unfolding push_data
write = push_data

-- The bytes that are copied to a destination, which may be null; as many are returned.
unfoldable pub peek_data_at : Bool → ℕ → ℕ → ReplyBuffer → Bytes
peek_data_at there size offset rb =
    if not there || size == 0 || leb (readable_size rb) offset
    then []
    else bytes_at (rb.read_pos + offset)
        (if ltb (readable_size rb) ((size + offset) % 2 ^ 64)
          then readable_size rb - offset
          else size)
        rb.vec_buffer

unfoldable pub peek_data : Bool → ℕ → ReplyBuffer → Bytes × ReplyBuffer
unfolding peek_data_at
peek_data there size rb = let d = peek_data_at there size 0 rb in (d, adjust_read_ptr (length d) rb)

-- `capacity` is that of the vector.
unfoldable pub shrink : ℕ → Bool → ReplyBuffer → Outcome ReplyBuffer
shrink capacity tight rb =
    if not (capacity == length rb.vec_buffer)
    then fault
    else if length rb.vec_buffer == 0
    then assert (rb.read_pos == 0 && rb.write_pos == 0) rb
    else if not tight && ltb (length rb.vec_buffer / 2) (readable_size rb)
    then done rb
    else done (record { read_pos = 0; write_pos = readable_size rb; vec_buffer = held rb })

unfoldable pub clear : ReplyBuffer → ReplyBuffer
clear rb = record rb { read_pos = 0; write_pos = 0 }

unfoldable pub swap : ReplyBuffer → ReplyBuffer → ReplyBuffer × ReplyBuffer
swap this buf = (buf, this)
