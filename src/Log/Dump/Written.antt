-- ===== src/Log/Dump/Written.antt =====
-- What `formLog` leaves in its block, and what `outputBinary` puts into the queue.
use yedis.Prelude.{
  ℕ, ◌+◌, ◌-◌, ◌*◌, ◌/◌, ◌%◌, ◌≤◌, ◌<◌, ◌≡◌, sym, ap, ◌∙◌, false, [], ◌∷◌, ◌++◌, append-nil,
  append_assoc, inl, inr, Bytes, lf, length, All, length-append, ◌==◌, if◌then◌else◌, arith,
  Bool-cases,
}
use yedis.Outcome.{Outcome, done, ◌>>=◌}
use yedis.Log.Dump.{
  nth, hex_digits, hex_byte, Form, put_char, head_of, put_header, put_head, put_gap, put_byte,
}
use yedis.Log.Dump.Rows.{lead, piece, next}
use yedis.Log.Dump.Block.{
  IsText, All-append, head_of-All, hex_byte-All, length-head_of, length-head_of_pos, form,
  put_char-form, put_header-form,
}

abbrev gap : ℕ → Bytes
gap l = if l % 16 == 0 then b' ' ∷ [] else []

lead-All : (l i : ℕ) → All IsText (lead l i)
lead-All l i = elim (Bool-cases (l % 32 == 0)) [
  | inr e ↦ rw e tt
  | inl e ↦ elim (Bool-cases (l == 0)) [
    | inl z ↦ rw (e, z) (head_of-All i)
    | inr z ↦ rw (e, z) (omega arith, head_of-All i)
  ]
]

gap-All : (l : ℕ) → All IsText (gap l)
gap-All l = elim (Bool-cases (l % 16 == 0)) [ inl e ↦ rw e (omega arith, tt) | inr e ↦ rw e tt ]

pub piece-All : (l i c : ℕ) → All IsText (piece l i c)
piece-All l i c =
    All-append IsText (lead l i) (gap l ++ hex_byte c) (lead-All l i)
      (All-append IsText (gap l) (hex_byte c) (gap-All l) (hex_byte-All c))

-- How long the text is behind `l` bytes, at most.
abbrev pub bound : ℕ → ℕ
bound l = 2 * l + 12 * ((l + 31) / 32) + (l + 15) / 16

length-lead : (l i : ℕ) → length (lead l i) ≤ 12 * ((l + 32) / 32) - 12 * ((l + 31) / 32)
length-lead l i = elim (Bool-cases (l % 32 == 0)) [
  | inr e ↦ rw e (omega arith)
  | inl e ↦ elim (Bool-cases (l == 0)) [
    | inl z ↦ rw (e, z) (ground (arith, length-head_of i))
    | inr z ↦ rw (e, z) (ground (arith, length-head_of i))
  ]
]

length-gap : (l : ℕ) → length (gap l) ≤ (l + 16) / 16 - (l + 15) / 16
length-gap l = elim (Bool-cases (l % 16 == 0)) [
  | inl e ↦ rw e (ground arith)
  | inr e ↦ rw e (omega arith)
]

pub length-piece : (l i c n : ℕ) → n ≤ bound l → n + length (piece l i c) ≤ bound (l + 1)
length-piece l i c n h = omega (
  arith,
  length-lead l i,
  length-gap l,
  length-append (lead l i) (gap l ++ hex_byte c),
  length-append (gap l) (hex_byte c),
)

-- `headlen` behind the test for a row.
abbrev pub head_len : ℕ → ℕ → ℕ → ℕ
head_len l i h = if l % 32 == 0 then length (head_of i) else h

pub head_len-pos : (i l h : ℕ) → (h == 0) ≡ (l == 0) → (head_len l i h == 0) ≡ false
head_len-pos i l h e = elim (Bool-cases (l % 32 == 0)) [
  | inl at_row ↦ rw at_row (ground (arith, length-head_of_pos i))
  | inr off ↦ rw off (ground arith)
]

module _ (size : ℕ) where
  put_head-form :
      (i l h : ℕ) (out : Bytes)
      → (h == 0) ≡ (l == 0)
      → All IsText out
      → length out + 12 < size
      → put_head (form size i l h out)
        ≡ done (form size (next l i) l (head_len l i h) (out ++ lead l i))
  put_head-form i l h out e v p = elim (Bool-cases (l % 32 == 0)) [
    | inr off ↦ rw off (ap (λ s. done (form size i l h s)) (sym (append-nil out)))
    | inl at_row ↦ elim (Bool-cases (l == 0)) [
      | inl z ↦ rw (at_row, e, z) (put_header-form size i l h out v (omega arith))
      | inr z ↦
          rw (at_row, e, z)
            (ap (λ (o : Outcome Form). o >>= put_header)
                (put_char-form size lf i l h out (omega arith))
              ∙ put_header-form size i l h (out ++ lf ∷ [])
                  (All-append IsText out (lf ∷ []) v (omega arith, tt))
                  (omega (arith, length-append out (lf ∷ [])))
              ∙ ap (λ s. done (form size (i + 1) l (length (head_of i)) s))
                  (append_assoc out (lf ∷ []) (head_of i)))
    ]
  ]

  put_gap-form :
      (i l h : ℕ) (out : Bytes)
      → (h == 0) ≡ false
      → length out < size
      → put_gap (form size i l h out) ≡ done (form size i l h (out ++ gap l))
  put_gap-form i l h out e p = elim (Bool-cases (l % 16 == 0)) [
    | inr off ↦ rw off (ap (λ s. done (form size i l h s)) (sym (append-nil out)))
    | inl at_row ↦ rw (at_row, e) (put_char-form size b' ' i l h out p)
  ]

  pub put_byte-form :
      (i l h c : ℕ) (out : Bytes)
      → (h == 0) ≡ (l == 0)
      → All IsText out
      → length out + 17 < size
      → put_byte c (form size i l h out)
        ≡ done (form size (next l i) (l + 1) (head_len l i h) (out ++ piece l i c))
  put_byte-form i l h c out e v p =
      let a = out ++ lead l i in
      let b = a ++ gap l in
      let hi = nth (c / 16 % 16) hex_digits in
      let lo = nth (c % 16) hex_digits in
      let hl = head_len l i h in
      let finish : Form → Outcome Form = λ f. done (record f { lsize = f.lsize + 1 }) in
      let put_lo : Form → Outcome Form = λ k. put_char lo k >>= finish in
      let put_both : Form → Outcome Form = λ f. put_char hi f >>= put_lo in
      let fits : length a ≤ length out + 12 =
        omega (arith, length-append out (lead l i), length-lead l i) in
      let fits_b : length b ≤ length out + 13 =
        omega (arith, fits, length-append a (gap l), length-gap l) in
      ap (λ (o : Outcome Form). o >>= λ g. put_gap g >>= put_both)
        (put_head-form i l h out e v (omega arith))
      ∙ ap (λ (o : Outcome Form). o >>= put_both)
          (put_gap-form (next l i) l hl a (head_len-pos i l h e) (omega (arith, fits)))
      ∙ ap (λ (o : Outcome Form). o >>= put_lo)
          (put_char-form size hi (next l i) l hl b (omega (arith, fits_b)))
      ∙ ap (λ (o : Outcome Form). o >>= finish)
          (put_char-form size lo (next l i) l hl (b ++ hi ∷ [])
            (omega (arith, fits_b, length-append b (hi ∷ []))))
      ∙ ap (λ s. done (form size (next l i) (l + 1) hl s))
          (append_assoc b (hi ∷ []) (lo ∷ [])
            ∙ append_assoc a (gap l) (hex_byte c)
            ∙ append_assoc out (lead l i) (gap l ++ hex_byte c))
