-- ===== src/Buffer/Tests.antt =====
-- Runs of a small buffer.
use yedis.Prelude.{◌≡◌, refl, List, [], ◌∷◌, ◌++◌, replicate, arith, codes}
use yedis.Outcome.{done, fault, ◌>>=◌}
use yedis.Buffer.{
  Buffer, got, failed, append, retrieve, has_written, make_space, ensure_writable_bytes, content,
}
use yedis.Prelude.Memory.{overwrite, overlay}
use yedis.Buffer.Space.{IsBuffer}
use yedis.Buffer.Refine.{Op, perform, specified, run, Refines, run-Refines}
use yedis.Buffer.Integers.{prepend_int, read_int}
use yedis.Buffer.Integers.RoundTrip.{read_int-prepend_int}

-- Two bytes are held, and there is space for two more.
abbrev small : Buffer
small = record { buffer = replicate 8 0 ++ 1 ∷ 2 ∷ 0 ∷ 0 ∷ []; reader_index = 8; writer_index = 10 }

small-IsBuffer : IsBuffer small
small-IsBuffer = record { roomy = omega arith; ordered = omega arith; within = omega arith }

-- The vector grows where the space in front does not serve.
append-grows :
    append (3 ∷ 4 ∷ 5 ∷ []) small
    ≡ done (record {
      buffer = replicate 8 0 ++ 1 ∷ 2 ∷ 3 ∷ 4 ∷ 5 ∷ [];
      reader_index = 8;
      writer_index = 13;
    })
unfolding append ensure_writable_bytes make_space has_written overwrite overlay
append-grows = refl

-- With a byte read, the bytes are moved to the front.
append-moves :
    append (3 ∷ 4 ∷ 5 ∷ []) (record small { reader_index = 9 })
    ≡ done (record {
      buffer = replicate 8 0 ++ 2 ∷ 3 ∷ 4 ∷ 5 ∷ [];
      reader_index = 8;
      writer_index = 12;
    })
unfolding append ensure_writable_bytes make_space has_written overwrite overlay
append-moves = refl

retrieve-too_many : retrieve 3 small ≡ fault
unfolding retrieve
retrieve-too_many = refl

abbrev calls : List Op
calls =
    Op.appends (codes "PING")
    ∷ Op.retrieves 3
    ∷ Op.shrinks 4
    ∷ Op.reads 11 (got (codes "ab"))
    ∷ Op.reads 11 (failed 4)
    ∷ Op.unwrites 1
    ∷ Op.retrieves 9
    ∷ []

run-Refines_example : Refines (run perform calls small) (run specified calls (content small))
run-Refines_example = run-Refines calls small small-IsBuffer

read_int-prepend_int_example :
    (b' : Buffer) × ((prepend_int 4 258 small >>= read_int 4) ≡ done (258, b'))
    × IsBuffer b'
    × (content b' ≡ content small)
read_int-prepend_int_example =
    read_int-prepend_int 4 258 small small-IsBuffer (omega arith) (omega arith)
