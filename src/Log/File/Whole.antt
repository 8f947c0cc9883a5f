-- ===== src/Log/File/Whole.antt =====
-- What `writeToFile` has written when it returns.
use yedis.Prelude.{
  ℕ, zero, suc, ◌+◌, ◌-◌, ◌≤◌, ◌<◌, ◌≡◌, refl, sym, ap, ◌∙◌, Bool, true, false, some, List, [], ◌∷◌,
  ◌++◌, inl, inr, ◌⊎◌, Bytes, length, take, drop, length-drop, ◌==◌, if◌then◌else◌, bytes_eq_refl,
  arith, le→leb, Bool-cases,
}
use yedis.Prelude.Memory.{take-all, drop-drop}
use yedis.Outcome.{Outcome, done, ◌>>=◌}
use yedis.Log.{Log, is_empty}
use yedis.Log.File.{Fwrite, append_to, erased, write_loop, put_written, write_to_file}

-- `fwrite` writes no more than it is given.
abbrev pub IsFwrite : Fwrite → Type 0
IsFwrite fwrite = (call n : ℕ) → fwrite call n ≤ n

-- All of `s` is written; or only its first bytes are, and then a call of `fwrite` wrote nothing.
abbrev pub Wrote : Fwrite → Bytes → Bool × Bytes → Type 0
Wrote fwrite s r =
    (r ≡ (true, s))
    ⊎ ((k : ℕ) × (call : ℕ) × (k < length s)
        × (fwrite call (length s - k) ≡ 0)
        × (r ≡ (false, take k s)))

is_empty-length : (s : Bytes) → is_empty s ≡ false → 0 < length s
is_empty-length [] h = absurd (cc h)
is_empty-length (c ∷ s) h = omega arith

is_empty→nil : (s : Bytes) → is_empty s ≡ true → s ≡ []
is_empty→nil [] h = refl
is_empty→nil (c ∷ s) h = absurd (cc h)

take-add : (k m : ℕ) (s : Bytes) → k ≤ length s → take k s ++ take m (drop k s) ≡ take (k + m) s
take-add zero m s h = ap (λ i. take i s) {x = m} {y = 0 + m} (omega arith)
take-add (suc k) m [] h = absurd (omega arith)
take-add (suc k) m (c ∷ s) h =
    ap (λ t. c ∷ t) (take-add k m s (omega arith))
    ∙ ap (λ i. take i (c ∷ s)) {x = suc (k + m)} {y = suc k + m} (omega arith)

module _ (fwrite : Fwrite) (bounded : IsFwrite fwrite) where
  loop-stops :
      (fuel call : ℕ) (s out : Bytes)
      → (fwrite call (length s) == 0) ≡ true
      → write_loop fwrite (suc fuel) call s out ≡ done (false, out)
  unfolding write_loop
  loop-stops fuel call s out z = rw (z, write_loop) refl

  loop-ends :
      (fuel call : ℕ) (s out : Bytes)
      → (fwrite call (length s) == 0) ≡ false
      → is_empty (erased (fwrite call (length s)) s) ≡ true
      → write_loop fwrite (suc fuel) call s out
        ≡ done (true, out ++ take (fwrite call (length s)) s)
  unfolding write_loop
  loop-ends fuel call s out z e = rw (z, e, write_loop) refl

  loop-goes :
      (fuel call : ℕ) (s out : Bytes)
      → (fwrite call (length s) == 0) ≡ false
      → is_empty (erased (fwrite call (length s)) s) ≡ false
      → write_loop fwrite (suc fuel) call s out
        ≡ write_loop fwrite fuel
            (call + 1)
            (erased (fwrite call (length s)) s)
            (out ++ take (fwrite call (length s)) s)
  unfolding write_loop
  loop-goes fuel call s out z e = rw (z, e, write_loop) refl

  -- `k` bytes are written before.
  write_loop-rest :
      (fuel call k : ℕ) (s : Bytes)
      → k < length s
      → length s < fuel + k
      → (r : Bool × Bytes) × (write_loop fwrite fuel call (drop k s) (take k s) ≡ done r)
        × Wrote fwrite s r
  write_loop-rest zero call k s h g = absurd (omega arith)
  write_loop-rest (suc fuel) call k s h g =
      let rest = drop k s in
      let ret = fwrite call (length rest) in
      let size : length rest ≡ length s - k = length-drop k s in
      let fits : ret ≤ length rest = bounded call (length rest) in
      let left : erased ret rest ≡ drop (k + ret) s =
        ap (λ b. if b then drop ret rest else rest) (le→leb ret (length rest) fits)
        ∙ drop-drop k ret (k + ret) s refl in
      let both : take k s ++ take ret rest ≡ take (k + ret) s = take-add k ret s (omega arith) in
      let after : length (drop (k + ret) s) ≡ length s - (k + ret) = length-drop (k + ret) s in
      elim (Bool-cases (ret == 0)) [
        | inl z ↦ (
          (false, take k s),
          loop-stops fuel call rest (take k s) z,
          inr (k, call, h, ap (fwrite call) (sym size) ∙ ground arith, refl),
        )
        | inr z ↦ elim (Bool-cases (is_empty (drop (k + ret) s))) [
          | inl e ↦ (
            (true, s),
            loop-ends fuel call rest (take k s) z (ap is_empty left ∙ e)
                ∙ ap (λ t. done (true, t))
                    (both
                      ∙ take-all (k + ret) s
                          (omega (arith, after, ap length (is_empty→nil (drop (k + ret) s) e)))),
            inl refl,
          )
          | inr e ↦
              let more = is_empty-length (drop (k + ret) s) e in
              let ih =
                write_loop-rest fuel (call + 1) (k + ret) s (omega (arith, more, after))
                  (ground arith) in
              (
                ih.0,
                loop-goes fuel call rest (take k s) z (ap is_empty left ∙ e)
                    ∙ ap (λ t. write_loop fwrite fuel (call + 1) t (take k s ++ take ret rest)) left
                    ∙ ap (write_loop fwrite fuel (call + 1) (drop (k + ret) s)) both
                    ∙ ih.1,
                ih.2,
              )
        ]
      ]

  pub write_loop-Wrote :
      (s : Bytes)
      → 0 < length s
      → (r : Bool × Bytes) × (write_loop fwrite (suc (length s)) 0 s [] ≡ done r) × Wrote fwrite s r
  write_loop-Wrote s h = write_loop-rest (suc (length s)) 0 0 s h (omega arith)

  -- A line that is not empty, and a log whose file is open: `writeToFile` returns, and the file has the
  -- whole line at its end when it returns true, and otherwise only the first bytes of the line, since a
  -- call of `fwrite` that had the others to write wrote none of them. For an `fwrite` that writes no
  -- more than it is given.
  pub write_to_file_lem :
      (line name content : Bytes) (older : List (Bytes × Bytes)) (l : Log)
      → 0 < length line
      → l.log_file ≡ some name
      → l.disk ≡ (name, content) ∷ older
      → (r : Bool × Bytes) × (write_to_file fwrite line l
          ≡ done (r.0, record l { disk = (name, content ++ r.1) ∷ older }))
        × Wrote fwrite line r
  unfolding write_to_file
  write_to_file_lem line name content older l h e d =
      let run = write_loop-Wrote line h in
      let r = run.0 in
      (
        r,
        ap (λ (o : Outcome (Bool × Bytes)). o >>= λ q. put_written l.log_file q l) run.1
            ∙ ap (λ f. put_written f r l) e
            ∙ ap (λ fs. done (r.0, record l { disk = append_to name r.1 fs })) d
            ∙ ap
                (λ b. done (
                  r.0,
                  record l {
                    disk =
                        if b
                        then (name, content ++ r.1) ∷ older
                        else (name, content) ∷ append_to name r.1 older;
                  },
                ))
                (bytes_eq_refl name),
        run.2,
      )
