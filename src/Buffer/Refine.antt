-- ===== src/Buffer/Refine.antt =====
-- A buffer, and the queue of the bytes that it holds.
use yedis.Prelude.{
  ℕ, ◌-◌, ◌^◌, ◌≤◌, ◌≡◌, refl, sym, subst, ap, ◌∙◌, List, [], ◌∷◌, ◌++◌, Bytes, length, take, drop,
  Option, leb, ltb, if◌then◌else◌, Bool-cases, inl, inr, arith,
}
use yedis.Prelude.Int.{ℤ}
use yedis.Prelude.Memory.{bytes_at, take-bytes_at}
use yedis.Outcome.{Outcome, done, fault, out_of_fuel, ◌>>=◌}
use yedis.Buffer.{
  Buffer, Read, readable_bytes, content, retrieve_all, retrieve_as_string, unwrite, append,
  int_length, shrink, read_fd,
}
use yedis.Buffer.Take.{retrieve_all_lem, retrieve_as_string_lem}
use yedis.Buffer.Space.{IsBuffer, length-content, append_lem}
use yedis.Buffer.Shrink.{piece_of-take, shrunk, shrink-long}
use yedis.Buffer.ReadFd.{bytes_of, read_fd_lem}

pub data Op : Type 0 where
  appends : Bytes → Op
  retrieves unwrites shrinks : ℕ → Op
  clears : Op
  reads : ℕ → Read → Op

abbrev pub without_bytes : Outcome Buffer → Outcome (Bytes × Buffer)
without_bytes r = r >>= λ b. done ([], b)

-- The bytes that a call returns, and the buffer.
abbrev pub perform : Op → Buffer → Outcome (Bytes × Buffer)
perform (appends bytes) b = without_bytes (append bytes b)
perform (retrieves n) b = retrieve_as_string n b
perform (unwrites n) b = without_bytes (unwrite n b)
perform (shrinks reserve) b = without_bytes (shrink reserve b)
perform clears b = done ([], retrieve_all b)
perform (reads e r) b = read_fd e r b >>= λ q. done ([], q.1)

-- The queue: bytes are put at the end, and taken from the front or back off the end, as many as
-- there are. A shrink keeps the first bytes, as many as an `int` says that there are; it fails when that
-- is a negative number.
abbrev pub specified : Op → Bytes → Outcome (Bytes × Bytes)
specified (appends bytes) s = done ([], s ++ bytes)
specified (retrieves n) s = if leb n (length s) then done (take n s, drop n s) else fault
specified (unwrites n) s = if leb n (length s) then done ([], take (length s - n) s) else fault
specified (shrinks reserve) s =
    let n = int_length (length s) in if ltb n (2 ^ 31) then done ([], take n s) else fault
specified clears s = done ([], [])
specified (reads e r) s = done ([], s ++ bytes_of r)

abbrev pub run {ℓ} :
    {S : Type ℓ} → (Op → S → Outcome (Bytes × S)) → List Op → S → Outcome (Bytes × S)
run step [] s = done ([], s)
run step (o ∷ ops) s = do r ← step o s; q ← run step ops r.1; done (r.0 ++ q.0, q.1)

-- The same bytes are returned, and the buffer holds the queue; or both calls fail.
abbrev pub Refines : Outcome (Bytes × Buffer) → Outcome (Bytes × Bytes) → Type 0
Refines (done (out, b)) (done (out', s)) = (out ≡ out') × IsBuffer b × (content b ≡ s)
Refines fault fault = Unit
Refines _ _ = ⊥

-- Of the bytes, the first `k` are taken and the others stay.
retrieved :
    (k : ℕ) {b : Buffer}
    → IsBuffer b
    → k ≤ readable_bytes b
    → Refines (retrieve_as_string k b) (done (take k (content b), drop k (content b)))
retrieved k {b} v h =
    let (b', run, v', q) = retrieve_as_string_lem k v h in
    subst (λ r. Refines r (done (take k (content b), drop k (content b)))) (sym run) (refl, v', q)

retrieves-Refines :
    (k : ℕ) {b : Buffer}
    → IsBuffer b
    → Refines (retrieve_as_string k b) (specified (retrieves k) (content b))
retrieves-Refines k {b} v = elim (Bool-cases (leb k (readable_bytes b))) [
  | inl e ↦ rw (length-content v, e, if◌then◌else◌) (retrieved k v (ground arith))
  | inr e ↦ rw (length-content v, e, if◌then◌else◌) (unfold retrieve_as_string in rw e tt)
]

unwrites-Refines :
    (k : ℕ) {b : Buffer}
    → IsBuffer b
    → Refines (without_bytes (unwrite k b)) (specified (unwrites k) (content b))
unfolding unwrite
unwrites-Refines k {b} v =
    let n = readable_bytes b in
    elim (Bool-cases (leb k n)) [
      | inl e ↦
          rw (length-content v, e, if◌then◌else◌)
            (
              refl,
              record {
                roomy = omega (arith, v);
                ordered = ground (arith, v);
                within = ground (arith, v);
              },
              ap (λ m. bytes_at b.reader_index m b.buffer) (ground arith)
                  ∙ sym (take-bytes_at b.reader_index n (n - k) b.buffer (omega arith)),
            )
      | inr e ↦ rw (length-content v, e, if◌then◌else◌) tt
    ]

appends-Refines :
    (bytes : Bytes) {b : Buffer}
    → IsBuffer b
    → Refines (without_bytes (append bytes b)) (done ([], content b ++ bytes))
appends-Refines bytes {b} v =
    let (b', run, q) = append_lem bytes v in
    subst (λ r. Refines (without_bytes r) (done ([], content b ++ bytes))) (sym run)
      (refl, q.is_buffer, q.holds)

shrinks-Refines :
    (reserve : ℕ) {b : Buffer}
    → IsBuffer b
    → Refines (without_bytes (shrink reserve b)) (specified (shrinks reserve) (content b))
shrinks-Refines reserve {b} v = elim (Bool-cases (ltb (int_length (readable_bytes b)) (2 ^ 31))) [
  | inl e ↦
      let (b', run, q) = shrunk reserve v e in
      rw (length-content v, e, if◌then◌else◌)
        (subst
          (λ r.
            Refines (without_bytes r) (done ([], take (int_length (readable_bytes b)) (content b))))
          (sym run) (refl, q.is_buffer, q.holds ∙ piece_of-take b))
  | inr e ↦
      rw (length-content v, e, if◌then◌else◌)
        (subst (λ r. Refines (without_bytes r) fault) (sym (shrink-long reserve b e)) tt)
]

reads-Refines :
    (e : ℕ) (r : Read) {b : Buffer}
    → IsBuffer b
    → Refines (read_fd e r b >>= λ q. done ([], q.1)) (done ([], content b ++ bytes_of r))
reads-Refines e r {b} v =
    let (saved, b', run, v', q) = read_fd_lem e r v in
    subst
      (λ (o : Outcome ((ℤ × Option ℕ) × Buffer)).
        Refines (o >>= λ q. done ([], q.1)) (done ([], content b ++ bytes_of r)))
      (sym run) (refl, v', q)

perform-Refines :
    (o : Op) {b : Buffer} → IsBuffer b → Refines (perform o b) (specified o (content b))
perform-Refines (appends bytes) v = appends-Refines bytes v
perform-Refines (retrieves n) v = retrieves-Refines n v
perform-Refines (unwrites n) v = unwrites-Refines n v
perform-Refines (shrinks reserve) v = shrinks-Refines reserve v
perform-Refines clears v = let (all, nothing) = retrieve_all_lem v in (refl, all, nothing)
perform-Refines (reads e r) v = reads-Refines e r v

with_bytes-Refines :
    (out : Bytes) (o : Outcome (Bytes × Buffer)) (o' : Outcome (Bytes × Bytes))
    → Refines o o'
    → Refines (o >>= λ q. done (out ++ q.0, q.1)) (o' >>= λ q. done (out ++ q.0, q.1))
with_bytes-Refines out (done (s, b)) (done (s', t)) (e, v, h) = (ap (λ l. out ++ l) e, v, h)
with_bytes-Refines out fault fault h = tt
with_bytes-Refines out (done q) fault h = absurd h
with_bytes-Refines out (done q) out_of_fuel h = absurd h
with_bytes-Refines out fault (done q) h = absurd h
with_bytes-Refines out fault out_of_fuel h = absurd h
with_bytes-Refines out out_of_fuel o' h = absurd h

then-Refines :
    (ops : List Op) (o : Outcome (Bytes × Buffer)) (o' : Outcome (Bytes × Bytes))
    → Refines o o'
    → ((b : Buffer) → IsBuffer b → Refines (run perform ops b) (run specified ops (content b)))
    → Refines
        (o >>= λ r. run perform ops r.1 >>= λ q. done (r.0 ++ q.0, q.1))
        (o' >>= λ r. run specified ops r.1 >>= λ q. done (r.0 ++ q.0, q.1))
then-Refines ops (done (out, b)) (done (out', s)) (e, v, h) rest =
    rw (e, ← h)
      (with_bytes-Refines out' (run perform ops b) (run specified ops (content b)) (rest b v))
then-Refines ops fault fault h rest = tt
then-Refines ops (done q) fault h rest = absurd h
then-Refines ops (done q) out_of_fuel h rest = absurd h
then-Refines ops fault (done q) h rest = absurd h
then-Refines ops fault out_of_fuel h rest = absurd h
then-Refines ops out_of_fuel o' h rest = absurd h

-- No sequence of calls of append, retrieveAsString, unwrite, shrink, retrieveAll and readFd, whatever
-- `readv` gives, tells a buffer whose indices are in order from the queue of its readable bytes: the
-- calls return the same bytes and leave the queue's bytes and indices in order, or a call fails just
-- where the queue refuses: more bytes are asked for than there are, or a buffer is shrunk whose length
-- is negative as an `int`. A shrink keeps all bytes where there are fewer than 2 ^ 31, and otherwise as
-- many of the first as the low 32 bits of their number say.
pub run-Refines :
    (ops : List Op) (b : Buffer)
    → IsBuffer b
    → Refines (run perform ops b) (run specified ops (content b))
run-Refines [] b v = (refl, v, refl)
run-Refines (o ∷ ops) b v =
    then-Refines ops (perform o b) (specified o (content b)) (perform-Refines o v)
      (λ b' v'. run-Refines ops b' v')
