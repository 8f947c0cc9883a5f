-- ===== src/Lists/Range.antt =====
-- The index arithmetic of LRANGE: `adjustIndex` (src/YList.h), `getRange` and `index2Iterator`
-- (src/YList.cpp). An iterator is an index into the list; the end is its length.
pub mod Slice
use yedis.Prelude.{
  ℕ, zero, suc, ◌+◌, ◌-◌, ◌*◌, ◌≡◌, refl, Bool, true, false, not, ◌&&◌, ◌||◌, Option, none, some,
  List, [], ◌∷◌, Bytes, length, leb, ltb, ◌==◌, if◌then◌else◌,
}
use yedis.Prelude.Int.{ℤ, pos, negsuc, ◌+ℤ◌, ltb_ℤ}
use yedis.Outcome.{Outcome, done, fault}

-- `if (start < 0) start += size; if (start < 0) start = 0;`
abbrev pub adjust_start : ℤ → ℕ → ℤ
adjust_start start size =
    let moved = if ltb_ℤ start (pos 0) then start +ℤ pos size else start in
    if ltb_ℤ moved (pos 0) then pos 0 else moved

-- `if (end < 0) end += size; if (end >= size) end = size - 1;`
abbrev pub adjust_end : ℤ → ℕ → ℤ
adjust_end end size =
    let moved = if ltb_ℤ end (pos 0) then end +ℤ pos size else end in
    if not (ltb_ℤ moved (pos size)) then pos (size - 1) else moved

unfoldable pub adjust_index : ℤ → ℤ → ℕ → ℤ × ℤ
unfolding ◌+ℤ◌
adjust_index start end size =
    if size == 0 then (pos 1, pos 0) else (adjust_start start size, adjust_end end size)

-- `while (start -- > 0) ++ it` and `while (start ++ < size) -- it`, by the rounds that are left.
unfoldable pub step_on : ℕ → ℕ → ℕ
step_on zero it = it
step_on (suc n) it = step_on n (it + 1)

unfoldable pub step_back : ℕ → ℕ → ℕ
step_back zero it = it
step_back (suc n) it = step_back n (it - 1)

-- The iterator is moved from the nearer end of the list.
unfoldable pub index2_iterator : ℕ → ℕ → ℕ
unfolding step_on step_back
index2_iterator start size =
    if ltb (start * 2) size then step_on start 0 else step_back (size - start) size

pub record ListRange : Type 0 where
  pub range_len : ℕ
  pub begin_it : ℕ

-- The asserts of `index2Iterator` are those of a range within the list.
abbrev range_within : ℕ → ℕ → ℕ → Outcome ListRange
range_within start end size =
    if leb start end && ltb end size
    then done (record { range_len = end - start + 1; begin_it = index2_iterator start size })
    else fault

abbrev range_between : ℕ → ℕ → ℕ → Outcome ListRange
range_between start end size =
    if not (start == 0) || not (end + 1 == size)
    then range_within start end size
    else done (record { range_len = size; begin_it = 0 })

abbrev range_of : ℤ → ℤ → ℕ → Outcome ListRange
range_of (pos start) (pos end) size = range_between start end size
range_of _ _ size = fault

unfoldable pub get_range : ℤ × ℤ → List Bytes → Outcome ListRange
unfolding index2_iterator
get_range (start, end) l =
    if ltb_ℤ end start
    then done (record { range_len = 0; begin_it = length l })
    else range_of start end (length l)
