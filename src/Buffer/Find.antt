-- ===== src/Buffer/Find.antt =====
-- base/Buffer.h: the searches for a line end. A place in the block is its index; a null pointer is
-- `none`.
use yedis.Prelude.{
  arith, true, false, ◌++◌, suc, Bool, take, drop, refl, Bool-cases, inl, inr, ◌∙◌, sym, ap, ==_iff,
  ◌≡◌, ℕ, ◌+◌, ◌-◌, Option, none, some, [], ◌∷◌, Bytes, cr, lf, leb, ◌==◌, ◌&&◌, if◌then◌else◌,
  one_on, find_first_of,
}
use mathlib.Core.Option.{some-injective}
use yedis.Prelude.Memory.{bytes_at}
use yedis.Outcome.{Outcome}
use yedis.Buffer.{Buffer, assert, content}

-- `std::search` for a carriage return and a line feed; the end of the range is `none`.
abbrev pub search_crlf : Bytes → Option ℕ
search_crlf [] = none
search_crlf (c ∷ []) = none
search_crlf (c ∷ d ∷ s) = if c == cr && d == lf then some 0 else one_on (search_crlf (d ∷ s))

abbrev pub behind : ℕ → Option ℕ → Option ℕ
behind start none = none
behind start (some i) = some (start + i)

unfoldable pub find_crlf : Buffer → Option ℕ
find_crlf b = behind b.reader_index (search_crlf (content b))

unfoldable pub find_crlf_from : ℕ → Buffer → Outcome (Option ℕ)
find_crlf_from start b =
    assert (leb b.reader_index start && leb start b.writer_index)
      (behind start (search_crlf (bytes_at start (b.writer_index - start) b.buffer)))

unfoldable pub find_eol : Buffer → Option ℕ
find_eol b = behind b.reader_index (find_first_of lf (content b))

unfoldable pub find_eol_from : ℕ → Buffer → Outcome (Option ℕ)
find_eol_from start b =
    assert (leb b.reader_index start && leb start b.writer_index)
      (behind start (find_first_of lf (bytes_at start (b.writer_index - start) b.buffer)))

one_on-some : (o : Option ℕ) (i : ℕ) → one_on o ≡ some i → (j : ℕ) × (o ≡ some j) × (i ≡ suc j)
one_on-some none i h = absurd (cc h)
one_on-some (some j) i h = (j, refl, some-injective i (suc j) (sym h))

both-true : (b c : Bool) → b && c ≡ true → (b ≡ true) × (c ≡ true)
both-true true c h = (refl, h)
both-true false c h = absurd (cc h)

search_crlf-splits :
    (s : Bytes) (i : ℕ) → search_crlf s ≡ some i → s ≡ take i s ++ cr ∷ lf ∷ drop (i + 2) s
search_crlf-splits [] i h = absurd (cc h)
search_crlf-splits (c ∷ []) i h = absurd (cc h)
search_crlf-splits (c ∷ d ∷ s) i h =
    let found : Bool → Option ℕ = λ b. if b then some 0 else one_on (search_crlf (d ∷ s)) in
    let split_at : ℕ → Bytes = λ j. take j (c ∷ d ∷ s) ++ cr ∷ lf ∷ drop (j + 2) (c ∷ d ∷ s) in
    elim (Bool-cases (c == cr && d == lf)) [
      | inl e ↦
          let (is_cr, is_lf) = both-true (c == cr) (d == lf) e in
          let zero_at : 0 ≡ i = some-injective 0 i (sym (ap found e) ∙ h) in
          ap (λ x. x ∷ d ∷ s) ((==_iff c cr).0 is_cr)
          ∙ ap (λ x. cr ∷ x ∷ s) ((==_iff d lf).0 is_lf)
          ∙ ap split_at zero_at
      | inr e ↦
          let (j, there, at) = one_on-some (search_crlf (d ∷ s)) i (sym (ap found e) ∙ h) in
          ap (λ t. c ∷ t) (search_crlf-splits (d ∷ s) j there)
          ∙ ap (λ k. c ∷ (take j (d ∷ s) ++ cr ∷ lf ∷ drop k (c ∷ d ∷ s))) {x = suc (j + 2)}
              {y = suc j + 2} (omega arith)
          ∙ ap split_at (sym at)
    ]

behind-some :
    (start : ℕ) (o : Option ℕ) (at : ℕ)
    → behind start o ≡ some at
    → (i : ℕ) × (o ≡ some i) × (at ≡ start + i)
behind-some start none at h = absurd (cc h)
behind-some start (some i) at h = (i, refl, some-injective at (start + i) (sym h))

-- The place that `findCRLF` gives is one of a carriage return and a line feed in the readable bytes.
find_crlf-splits :
    (b : Buffer) (at : ℕ)
    → find_crlf b ≡ some at
    → (i : ℕ) × (at ≡ b.reader_index + i)
      × (content b ≡ take i (content b) ++ cr ∷ lf ∷ drop (i + 2) (content b))
unfolding find_crlf
find_crlf-splits b at h =
    let (i, there, place) = behind-some b.reader_index (search_crlf (content b)) at h in
    (i, place, search_crlf-splits (content b) i there)
