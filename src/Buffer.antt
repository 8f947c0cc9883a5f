-- ===== src/Buffer.antt =====
-- base/Buffer.h and base/Buffer.cpp: the input buffer of a connection, a block of bytes with an index
-- where reading goes on and one where writing goes on.
-- A pointer into the block is its index. The differences of indices are those of a buffer in which
-- `readerIndex_ <= writerIndex_ <= buffer_.size()`; a failed `assert` is a fault.
pub mod Space
pub mod Take
pub mod Find
pub mod Shrink
pub mod ReadFd
pub mod Refine
pub mod Integers
mod Tests
use yedis.Prelude.{
  ℕ, zero, suc, ◌+◌, ◌-◌, ◌%◌, ◌^◌, Bool, true, false, Option, none, some, List, [], ◌∷◌, ◌++◌,
  Bytes, length, take, drop, replicate, leb, ltb, ◌==◌, if◌then◌else◌, ◌&&◌,
}
use yedis.Prelude.Int.{ℤ, pos, negsuc}
use yedis.Prelude.Memory.{overwrite, bytes_at}
use yedis.Outcome.{Outcome, done, fault, ◌>>=◌}

pub record Buffer : Type 0 where
  pub buffer : Bytes
  pub reader_index : ℕ
  pub writer_index : ℕ

abbrev pub cheap_prepend : ℕ
cheap_prepend = 8

abbrev pub initial_size : ℕ
initial_size = 1024

-- `Buffer(initialSize)`
unfoldable pub new_buffer : ℕ → Buffer
new_buffer initial = record {
  buffer = replicate (cheap_prepend + initial) 0;
  reader_index = cheap_prepend;
  writer_index = cheap_prepend;
}

unfoldable pub swap : Buffer → Buffer → Buffer × Buffer
swap this rhs = (rhs, this)

abbrev pub readable_bytes : Buffer → ℕ
readable_bytes b = b.writer_index - b.reader_index

abbrev pub writable_bytes : Buffer → ℕ
writable_bytes b = length b.buffer - b.writer_index

abbrev pub prependable_bytes : Buffer → ℕ
prependable_bytes b = b.reader_index

-- The bytes that `peek()` points to, up to `beginWrite()`.
abbrev pub content : Buffer → Bytes
content b = bytes_at b.reader_index (readable_bytes b) b.buffer

abbrev pub assert {ℓ} : {A : Type ℓ} → Bool → A → Outcome A
assert true a = done a
assert false a = fault

unfoldable pub retrieve_all : Buffer → Buffer
retrieve_all b = record b { reader_index = cheap_prepend; writer_index = cheap_prepend }

unfoldable pub retrieve : ℕ → Buffer → Outcome Buffer
unfolding retrieve_all
retrieve len b = assert (leb len (readable_bytes b)) (
    if ltb len (readable_bytes b)
    then record b { reader_index = b.reader_index + len }
    else retrieve_all b)

-- `end` is an index into the block.
unfoldable pub retrieve_until : ℕ → Buffer → Outcome Buffer
unfolding retrieve
retrieve_until end b =
    if leb b.reader_index end && leb end b.writer_index
    then retrieve (end - b.reader_index) b
    else fault

unfoldable pub retrieve_as_string : ℕ → Buffer → Outcome (Bytes × Buffer)
unfolding retrieve
retrieve_as_string len b =
    if leb len (readable_bytes b)
    then (retrieve len b >>= λ b'. done (bytes_at b.reader_index len b.buffer, b'))
    else fault

unfoldable pub retrieve_all_as_string : Buffer → Outcome (Bytes × Buffer)
unfolding retrieve_as_string
retrieve_all_as_string b = retrieve_as_string (readable_bytes b) b

-- The length goes through an `int`, which wraps: so many of the bytes are copied, and a negative number
-- of them is a `std::length_error`.
abbrev pub int_length : ℕ → ℕ
int_length n = n % 2 ^ 32

unfoldable pub to_string_piece : Buffer → Outcome Bytes
to_string_piece b =
    let n = int_length (readable_bytes b) in
    assert (ltb n (2 ^ 31)) (bytes_at b.reader_index n b.buffer)

-- The readable bytes are moved to the front.
abbrev pub moved : Buffer → Buffer
moved b = record {
  buffer = overwrite cheap_prepend (content b) b.buffer;
  reader_index = cheap_prepend;
  writer_index = cheap_prepend + readable_bytes b;
}

unfoldable pub make_space : ℕ → Buffer → Outcome Buffer
make_space len b =
    if ltb (writable_bytes b + prependable_bytes b) (len + cheap_prepend)
    then done
        (record b { buffer = b.buffer ++ replicate (b.writer_index + len - length b.buffer) 0 })
    else assert (ltb cheap_prepend b.reader_index) (moved b)

unfoldable pub ensure_writable_bytes : ℕ → Buffer → Outcome Buffer
unfolding make_space
ensure_writable_bytes len b =
    (if ltb (writable_bytes b) len then make_space len b else done b) >>= λ b'.
    assert (leb len (writable_bytes b')) b'

unfoldable pub has_written : ℕ → Buffer → Outcome Buffer
has_written len b =
    assert (leb len (writable_bytes b)) (record b { writer_index = b.writer_index + len })

unfoldable pub unwrite : ℕ → Buffer → Outcome Buffer
unwrite len b =
    assert (leb len (readable_bytes b)) (record b { writer_index = b.writer_index - len })

-- `std::copy` to `beginWrite()`
abbrev pub copied : Bytes → Buffer → Buffer
copied bytes b = record b { buffer = overwrite b.writer_index bytes b.buffer }

unfoldable pub append : Bytes → Buffer → Outcome Buffer
unfolding ensure_writable_bytes has_written
append bytes b =
    ensure_writable_bytes (length bytes) b >>= λ b'. has_written (length bytes) (copied bytes b')

-- In the space in front of the readable bytes.
unfoldable pub prepend : Bytes → Buffer → Outcome Buffer
prepend bytes b = assert (leb (length bytes) (prependable_bytes b)) (record b {
  buffer = overwrite (b.reader_index - length bytes) bytes b.buffer;
  reader_index = b.reader_index - length bytes;
})

-- A new buffer takes the place of this one.
unfoldable pub shrink : ℕ → Buffer → Outcome Buffer
unfolding new_buffer ensure_writable_bytes append to_string_piece swap
shrink reserve b = do
  other ← ensure_writable_bytes (readable_bytes b + reserve) (new_buffer initial_size)
  piece ← to_string_piece b
  other ← append piece other
  done (swap b other).0

-- What `readv` gives: an error number, or the bytes that it read, none at the end of the stream.
pub data Read : Type 0 where
  failed : ℕ → Read
  got : Bytes → Read

-- The bytes that fit were written behind `beginWrite()`, the others to `extrabuf`.
abbrev pub taken_in : Bytes → Buffer → Outcome Buffer
taken_in bytes b =
    let fitting = take (writable_bytes b) bytes in
    if leb (length bytes) (writable_bytes b)
    then done (record (copied fitting b) { writer_index = b.writer_index + length bytes })
    else append (drop (writable_bytes b) bytes)
        (record (copied fitting b) { writer_index = length b.buffer })

-- The number of bytes, or -1, with the error number that is saved for either failure or the end:
-- at the end of the stream `errno` is what it was, `errno_before`.
unfoldable pub read_fd : ℕ → Read → Buffer → Outcome ((ℤ × Option ℕ) × Buffer)
unfolding append
read_fd errno_before (failed e) b = done ((negsuc 0, some e), b)
read_fd errno_before (got []) b = done ((pos 0, some errno_before), b)
read_fd errno_before (got (c ∷ bytes)) b =
    taken_in (c ∷ bytes) b >>= λ b'. done ((pos (length (c ∷ bytes)), none), b')
