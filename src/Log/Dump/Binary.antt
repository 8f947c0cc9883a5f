-- ===== src/Log/Dump/Binary.antt =====
-- A whole call of `formLog`, and what `outputBinary` puts into the queue.
use yedis.Prelude.{
  ℕ, zero, suc, ◌+◌, ◌-◌, ◌/◌, ◌%◌, ◌≤◌, ◌<◌, ◌≡◌, refl, sym, ap, ◌∙◌, true, [], ◌∷◌, ◌++◌,
  append-nil, append_assoc, inl, inr, Bytes, lf, length, take, drop, replicate, All, codes,
  length-append, length-take, length-drop, ltb, ◌==◌, arith, lt→ltb, Bool-cases,
}
use yedis.Prelude.Int.{ℤ}
use yedis.Outcome.{Outcome, done, ◌>>=◌}
use yedis.Decimal.{print_nat, print_int}
use yedis.Log.Dump.{
  c_str, Form, put_char, form_loop, form_log, block_size, print_size, dump_chunks, binary_line,
}
use yedis.Log.Dump.Rows.{piece, next, written, rows, dump, written-dump}
use yedis.Log.Dump.Block.{IsText, All-append, c_str-end, block, form, put_char-form}
use yedis.Log.Dump.Written.{piece-All, length-piece, bound, head_len, head_len-pos, put_byte-form}
use yedis.Log.Dump.Split.{rows-fuel, rows-split, rows-nil}

-- The index behind the bytes.
abbrev index_after : ℕ → ℕ → Bytes → ℕ
index_after l i [] = i
index_after l i (c ∷ s) = index_after (l + 1) (next l i) s

next_lem : (l i : ℕ) → next l i ≡ i + ((l + 32) / 32 - (l + 31) / 32)
next_lem l i = elim (Bool-cases (l % 32 == 0)) [
  | inl e ↦ rw e (ground arith)
  | inr e ↦ rw e (ground arith)
]

index_after_lem :
    (l i : ℕ) (s : Bytes) → index_after l i s ≡ i + ((l + length s + 31) / 32 - (l + 31) / 32)
index_after_lem l i [] = omega arith
index_after_lem l i (c ∷ s) = omega (arith, index_after_lem (l + 1) (next l i) s, next_lem l i)

written-All : (l i : ℕ) (s : Bytes) → All IsText (written l i s)
written-All l i [] = tt
written-All l i (c ∷ s) =
    All-append IsText (piece l i c) (written (l + 1) (next l i) s) (piece-All l i c)
      (written-All (l + 1) (next l i) s)

length-written :
    (l i : ℕ) (s : Bytes) (n : ℕ) → n ≤ bound l → n + length (written l i s) ≤ bound (l + length s)
length-written l i [] n h = omega arith
length-written l i (c ∷ s) n h =
    let ih =
      length-written (l + 1) (next l i) s (n + length (piece l i c)) (length-piece l i c n h) in
    let e = ap bound {x = l + 1 + length s} {y = l + suc (length s)} (omega arith) in
    omega (arith, ih, e, length-append (piece l i c) (written (l + 1) (next l i) s))

form_loop-form :
    (l i h : ℕ) (s out : Bytes)
    → (h == 0) ≡ (l == 0)
    → All IsText out
    → length out ≤ bound l
    → l + length s ≤ print_size
    → (h' : ℕ) × (form_loop block_size s (form block_size i l h out)
        ≡ done (form block_size (index_after l i s) (l + length s) h' (out ++ written l i s)))
unfolding form_loop
form_loop-form l i h [] out e v b p = (
  h,
  ap (λ t. done (form block_size i l h t)) (sym (append-nil out))
      ∙ ap (λ m. done (form block_size i m h (out ++ []))) (omega arith),
)
form_loop-form l i h (c ∷ s) out e v b p =
    let there : ltb (length out + 10) block_size ≡ true =
      lt→ltb (length out + 10) block_size (omega arith) in
    let ih =
      form_loop-form (l + 1) (next l i) (head_len l i h) s (out ++ piece l i c)
        (head_len-pos i l h e ∙ ground arith)
        (All-append IsText out (piece l i c) v (piece-All l i c))
        (omega (arith, length-append out (piece l i c), length-piece l i c (length out) b))
        (omega arith) in
    (
      ih.0,
      rw (there, form_loop)
          (ap (λ (o : Outcome Form). o >>= form_loop block_size s)
              (put_byte-form block_size i l h c out e v (omega arith))
            ∙ ih.1
            ∙ ap
                (λ t.
                  done
                    (form block_size (index_after (l + 1) (next l i) s) (l + 1 + length s) ih.0 t))
                (append_assoc out (piece l i c) (written (l + 1) (next l i) s))
            ∙ ap
                (λ m. done (
                  form block_size (index_after (l + 1) (next l i) s) m ih.0
                    (out ++ written l i (c ∷ s))))
                (omega arith)),
    )

-- The call of `formLog` for a chunk.
form_log-dump :
    (i c : ℕ) (s : Bytes)
    → length (c ∷ s) ≤ print_size
    → (buf : Bytes) × (form_log i (replicate block_size 0) block_size (c ∷ s)
        ≡ done (i + (length (c ∷ s) + 31) / 32, buf))
      × (c_str buf ≡ dump i (c ∷ s))
unfolding form_log
form_log-dump i c s p =
    let out = written 0 i (c ∷ s) in
    let j = index_after 0 i (c ∷ s) in
    let run = form_loop-form 0 i 0 (c ∷ s) [] refl tt (omega arith) (omega arith) in
    let fits = length-written 0 i (c ∷ s) 0 (omega arith) in
    let n : ℕ = 0 + length (c ∷ s) in
    let text = out ++ lf ∷ [] in
    let room : ℕ = block_size - length (text ++ 0 ∷ []) in
    let finish : Form → Outcome (ℕ × Bytes) = λ f. done (f.index, f.szbuf) in
    let put_null : Form → Outcome (ℕ × Bytes) = λ g. put_char 0 g >>= finish in
    (
      block block_size (text ++ 0 ∷ []),
      ap (λ (o : Outcome Form). o >>= λ f. put_char lf f >>= put_null) run.1
          ∙ ap (λ (o : Outcome Form). o >>= put_null)
              (put_char-form block_size lf j n run.0 out (omega (arith, fits)))
          ∙ ap (λ (o : Outcome Form). o >>= finish)
              (put_char-form block_size 0 j n run.0 text
                (omega (arith, fits, length-append out (lf ∷ []))))
          ∙ ap (λ k. done (k, block block_size (text ++ 0 ∷ [])))
              (index_after_lem 0 i (c ∷ s) ∙ omega arith),
      ap c_str (append_assoc text (0 ∷ []) (replicate room 0))
          ∙ c_str-end text (replicate room 0)
              (All-append IsText out (lf ∷ []) (written-All 0 i (c ∷ s)) (omega arith, tt))
          ∙ written-dump i c s,
    )

rows-index : (f j k : ℕ) (s : Bytes) → (0 < length s → j ≡ k) → rows f j s ≡ rows f k s
rows-index f j k [] h = rows-nil f j ∙ sym (rows-nil f k)
rows-index f j k (c ∷ s) h = ap (λ m. rows f m (c ∷ s)) (h (omega arith))

-- The rows of a chunk, and those of the bytes behind it.
dump-chunk :
    (i c : ℕ) (s : Bytes)
    → dump i (c ∷ take 511 s) ++ dump (i + (length (c ∷ take 511 s) + 31) / 32) (drop 511 s)
      ≡ dump i (c ∷ s)
dump-chunk i c s =
    let n = suc (length s) in
    let j = i + (length (c ∷ take 511 s) + 31) / 32 in
    let chunk = c ∷ take 511 s in
    let in_chunk = length-take 511 s in
    let behind = length-drop 511 s in
    ap (λ t. t ++ dump j (drop 511 s))
      (rows-fuel (length chunk) n i chunk (omega arith) (omega (arith, in_chunk)))
    ∙ ap (λ t. rows n i chunk ++ t)
        (rows-fuel (length (drop 511 s)) n j (drop 511 s) (omega arith) (omega (arith, behind))
          ∙ rows-index n j (i + 16) (drop 511 s) (λ p. omega (arith, p, behind, in_chunk)))
    ∙ sym (rows-split 16 512 n i (c ∷ s) (omega arith) (omega arith))

dump_chunks-dump :
    (fuel i : ℕ) (s os : Bytes) → length s < fuel → dump_chunks fuel i s os ≡ done (os ++ dump i s)
unfolding dump_chunks
dump_chunks-dump zero i s os h = absurd (omega arith)
dump_chunks-dump (suc fuel) i [] os h = ap done (sym (append-nil os))
dump_chunks-dump (suc fuel) i (c ∷ s) os h =
    let t = take 511 s in
    let j = i + (length (c ∷ t) + 31) / 32 in
    let run = form_log-dump i c t (omega (arith, length-take 511 s)) in
    let continue : ℕ × Bytes → Outcome Bytes =
      λ r. dump_chunks fuel r.0 (drop 511 s) (os ++ c_str r.1) in
    ap (λ (o : Outcome (ℕ × Bytes)). o >>= continue) run.1
    ∙ ap (λ b. dump_chunks fuel j (drop 511 s) (os ++ b)) run.2
    ∙ dump_chunks-dump fuel j (drop 511 s) (os ++ dump i (c ∷ t)) (omega (arith, length-drop 511 s))
    ∙ ap done (append_assoc os (dump i (c ∷ t)) (dump j (drop 511 s)))
    ∙ ap (λ b. done (os ++ b)) (dump-chunk i c s)

-- The text that `outputBinary` puts into the queue for any bytes is its head and then the bytes in
-- rows of 32, numbered from 0, each with a line feed behind it: the chunks of 512 bytes leave no trace,
-- no row is cut short by the size of the block, nothing is written or read outside the block, and the
-- loop ends.
pub binary_line-dump :
    (address : ℤ) (buffer : Bytes)
    → binary_line address buffer
      ≡ done (
          (codes "address["
            ++ print_int address
            ++ codes "] size["
            ++ print_nat (length buffer)
            ++ codes "] \n")
          ++ dump 0 buffer)
unfolding binary_line
binary_line-dump address buffer = dump_chunks-dump (suc (length buffer)) 0 buffer _ (omega arith)
