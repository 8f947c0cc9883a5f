-- ===== src/Lists/Range/Slice.antt =====
-- LRANGE selects the elements between two indices, each counted from the end if it is negative.
use yedis.Prelude.{
  ℕ, zero, suc, ◌+◌, ◌-◌, ◌≤◌, ◌<◌, ◌≡◌, sym, ap, ◌∙◌, List, [], ◌∷◌, Bytes, length, ◌==◌,
  if◌then◌else◌, arith,
}
use Prim.Native.Nat.{min}
use native.Mathlib.Decide.{dec_lt}
use yedis.Prelude.Int.{ℤ, pos, negsuc, ◌+ℤ◌}
use yedis.Outcome.{done}
use yedis.Lists.Range.{
  ListRange, adjust_start, adjust_end, adjust_index, step_on, step_back, index2_iterator, get_range,
}

-- The first index of a range of a list of `n` elements, and the first index behind it.
abbrev pub lower : ℤ → ℕ → ℕ
lower (pos i) n = i
lower (negsuc i) n = n - suc i

abbrev pub upper : ℤ → ℕ → ℕ
upper (pos i) n = min (i + 1) n
upper (negsuc i) n = n - i

step_on_lem : (n it : ℕ) → step_on n it ≡ it + n
unfolding step_on
step_on_lem zero it = omega arith
step_on_lem (suc n) it = omega (arith, step_on_lem n (it + 1))

step_back_lem : (n it : ℕ) → step_back n it ≡ it - n
unfolding step_back
step_back_lem zero it = omega arith
step_back_lem (suc n) it = omega (arith, step_back_lem n (it - 1))

-- From whichever end it is moved, the iterator comes to `start`.
index2_iterator_lem : (start size : ℕ) → start ≤ size → index2_iterator start size ≡ start
unfolding index2_iterator
index2_iterator_lem start size h =
    ground (arith, step_on_lem start 0, step_back_lem (size - start) size)

adjust_start_lem : (start : ℤ) (n : ℕ) → adjust_start start n ≡ pos (lower start n)
unfolding ◌+ℤ◌
adjust_start_lem (pos i) n = ground arith
adjust_start_lem (negsuc i) n = ground arith

adjust_end-pos :
    (end : ℤ) (n : ℕ) → 0 < n → 0 < upper end n → adjust_end end n ≡ pos (upper end n - 1)
unfolding ◌+ℤ◌
adjust_end-pos (pos i) n h p = ground arith
adjust_end-pos (negsuc i) n h p = ground arith

adjust_end-neg : (i n : ℕ) → 0 < n → n ≤ i → adjust_end (negsuc i) n ≡ negsuc (i - n)
unfolding ◌+ℤ◌
adjust_end-neg i n h p = ground arith

abbrev pub no_range : ℕ → ListRange
no_range n = record { range_len = 0; begin_it = n }

-- The range that `getRange` finds.
abbrev pub selection : ℤ → ℤ → ℕ → ListRange
selection start end n =
    let k = upper end n - lower start n in
    if k == 0 then no_range n else record { range_len = k; begin_it = lower start n }

get_range-empty :
    (start : ℕ) (end : ℕ) (l : List Bytes)
    → end < start
    → get_range (pos start, pos end) l ≡ done (no_range (length l))
unfolding get_range
get_range-empty start end l h = ground arith

get_range-within :
    (start end : ℕ) (l : List Bytes)
    → start ≤ end
    → end < length l
    → get_range (pos start, pos end) l
      ≡ done (record { range_len = end - start + 1; begin_it = start })
unfolding get_range
get_range-within start end l h p = ground (arith, index2_iterator_lem start (length l))

get_range-cut :
    (s u : ℕ) (l : List Bytes)
    → 0 < u
    → u ≤ length l
    → get_range (pos s, pos (u - 1)) l
      ≡ done
          (if u - s == 0 then no_range (length l) else record { range_len = u - s; begin_it = s })
get_range-cut s u l p q = elim (dec_lt s u) [
  | yes h ↦ ground (arith, get_range-within s (u - 1) l (omega arith) (omega arith))
  | no h ↦ ground (arith, get_range-empty s (u - 1) l (omega arith))
]

pub upper-le : (end : ℤ) (n : ℕ) → upper end n ≤ n
upper-le (pos i) n = omega arith
upper-le (negsuc i) n = omega arith

get_range-neg :
    (start end : ℕ) (l : List Bytes)
    → get_range (pos start, negsuc end) l ≡ done (no_range (length l))
unfolding get_range
get_range-neg start end l = ground arith

selection-none : (start end : ℤ) (n : ℕ) → upper end n ≡ 0 → selection start end n ≡ no_range n
selection-none start end n h = ground arith

adjust_index-pos :
    (start end : ℤ) (n : ℕ)
    → 0 < n
    → adjust_index start end n ≡ (adjust_start start n, adjust_end end n)
unfolding adjust_index
adjust_index-pos start end n h = ground arith

get_range-adjusted :
    (start end : ℤ) (l : List Bytes)
    → 0 < length l
    → get_range (adjust_start start (length l), adjust_end end (length l)) l
      ≡ done (selection start end (length l))
get_range-adjusted start (pos j) l h =
    rw (adjust_start_lem start (length l), adjust_end-pos (pos j) (length l) h (omega arith))
      (get_range-cut (lower start (length l)) (upper (pos j) (length l)) l (omega arith)
        (omega arith))
get_range-adjusted start (negsuc j) l h = elim (dec_lt j (length l)) [
  | yes p ↦
      rw (adjust_start_lem start (length l), adjust_end-pos (negsuc j) (length l) h (omega arith))
        (get_range-cut (lower start (length l)) (length l - j) l (omega arith) (omega arith))
  | no p ↦
      rw (adjust_start_lem start (length l), adjust_end-neg j (length l) h (omega arith))
        (get_range-neg (lower start (length l)) (j - length l) l
          ∙ ap done (sym (selection-none start (negsuc j) (length l) (omega arith))))
]

-- For all indices the asserts of `getRange` hold, and it finds the range between them: as many
-- elements as lie between the indices, from `lower` on, or none and the end of the list.
pub get_range-adjust_index :
    (start end : ℤ) (l : List Bytes)
    → get_range (adjust_index start end (length l)) l ≡ done (selection start end (length l))
unfolding adjust_index
get_range-adjust_index start end [] =
    get_range-empty 1 0 [] (omega arith)
    ∙ ap done (sym (selection-none start end 0 (omega (arith, upper-le end 0))))
get_range-adjust_index start end (s ∷ l) =
    ap (λ r. get_range r (s ∷ l)) (adjust_index-pos start end (length (s ∷ l)) (omega arith))
    ∙ get_range-adjusted start end (s ∷ l) (omega arith)
