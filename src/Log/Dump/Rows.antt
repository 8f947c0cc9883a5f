-- ===== src/Log/Dump/Rows.antt =====
-- Bytes in rows of 32, and what the loop of `formLog` writes for each of them.
use yedis.Prelude.{
  ℕ, zero, suc, ◌+◌, ◌*◌, ◌%◌, ◌≤◌, ◌<◌, ◌≡◌, refl, sym, ap, ◌∙◌, true, false, [], ◌∷◌, ◌++◌,
  append_assoc, Bytes, lf, length, take, drop, length-drop, ◌==◌, if◌then◌else◌, arith,
}
use yedis.Prelude.Memory.{drop-drop}
use yedis.Log.Dump.{head_of, hex_byte}

-- The rows, as one reads them.
abbrev pub hexes : Bytes → Bytes
hexes [] = []
hexes (c ∷ s) = hex_byte c ++ hexes s

abbrev pub half : Bytes → Bytes
half [] = []
half (c ∷ s) = b' ' ∷ hexes (c ∷ s)

abbrev pub row : ℕ → Bytes → Bytes
row index s = head_of index ++ (half (take 16 s) ++ half (take 16 (drop 16 s)))

abbrev pub rows : ℕ → ℕ → Bytes → Bytes
rows zero index s = []
rows (suc fuel) index [] = []
rows (suc fuel) index (c ∷ s) = row index (c ∷ s) ++ lf ∷ rows fuel (index + 1) (drop 32 (c ∷ s))

-- Each byte needs at most one row.
abbrev pub dump : ℕ → Bytes → Bytes
dump index s = rows (length s) index s

-- What one round of the loop writes at `lsize`, and the index behind it.
abbrev pub lead : ℕ → ℕ → Bytes
lead l index = if l % 32 == 0 then (if l == 0 then [] else lf ∷ []) ++ head_of index else []

abbrev pub piece : ℕ → ℕ → ℕ → Bytes
piece l index c = lead l index ++ ((if l % 16 == 0 then b' ' ∷ [] else []) ++ hex_byte c)

abbrev pub next : ℕ → ℕ → ℕ
next l index = if l % 32 == 0 then index + 1 else index

abbrev pub written : ℕ → ℕ → Bytes → Bytes
written l index [] = []
written l index (c ∷ s) = piece l index c ++ written (l + 1) (next l index) s

-- Bytes at which neither a row nor a half of one begins.
written-inner :
    (n k r l index : ℕ) (s : Bytes)
    → l ≡ 16 * k + r
    → 0 < r
    → r + n ≤ 16
    → written l index s ≡ hexes (take n s) ++ written (l + n) index (drop n s)
written-inner zero k r l i s e p h = ap (λ m. written m i s) (omega arith)
written-inner (suc n) k r l i [] e p h = refl
written-inner (suc n) k r l i (c ∷ s) e p h =
    let row_no : (l % 32 == 0) ≡ false = ground arith in
    let half_no : (l % 16 == 0) ≡ false = ground arith in
    rw (row_no, half_no)
      (ap (λ t. hex_byte c ++ t)
          (written-inner n k (r + 1) (l + 1) i s (omega arith) (omega arith) (omega arith)
            ∙ ap (λ m. hexes (take n s) ++ written m i (drop n s)) (omega arith))
        ∙ sym (append_assoc (hex_byte c) (hexes (take n s)) _))

written-second_half :
    (q l index : ℕ) (s : Bytes)
    → l ≡ 32 * q + 16
    → written l index s ≡ half (take 16 s) ++ written (l + 16) index (drop 16 s)
written-second_half q l i [] e = refl
written-second_half q l i (c ∷ s) e =
    let row_no : (l % 32 == 0) ≡ false = ground arith in
    let half_yes : (l % 16 == 0) ≡ true = ground arith in
    rw (row_no, half_yes)
      (ap (λ t. b' ' ∷ (hex_byte c ++ t))
          (written-inner 15 (2 * q + 1) 1 (l + 1) i s (omega arith) (omega arith) (omega arith)
            ∙ ap (λ m. hexes (take 15 s) ++ written m i (drop 15 s)) (omega arith))
        ∙ ap (λ t. b' ' ∷ t) (sym (append_assoc (hex_byte c) (hexes (take 15 s)) _)))

abbrev sep : ℕ → Bytes
sep zero = []
sep (suc q) = lf ∷ []

lead-sep : (q l index : ℕ) → l ≡ 32 * q → lead l index ≡ sep q ++ head_of index
lead-sep zero l i e =
    let yes : (l % 32 == 0) ≡ true = ground arith in
    let z : (l == 0) ≡ true = ground arith in rw (yes, z) refl
lead-sep (suc q) l i e =
    let yes : (l % 32 == 0) ≡ true = ground arith in
    let z : (l == 0) ≡ false = ground arith in rw (yes, z) refl

written-first_half :
    (q l index c : ℕ) (s : Bytes)
    → l ≡ 32 * q
    → written l index (c ∷ s)
      ≡ lead l index ++ (half (take 16 (c ∷ s)) ++ written (l + 16) (index + 1) (drop 15 s))
written-first_half q l i c s e =
    let row_yes : (l % 32 == 0) ≡ true = ground arith in
    let half_yes : (l % 16 == 0) ≡ true = ground arith in
    let nx : next l i ≡ i + 1 = ap (λ b. if b then i + 1 else i) row_yes in
    let body : written (l + 1) (next l i) s
        ≡ hexes (take 15 s) ++ written (l + 16) (i + 1) (drop 15 s) =
      ap (λ m. written (l + 1) m s) nx
      ∙ written-inner 15 (2 * q) 1 (l + 1) (i + 1) s (omega arith) (omega arith) (omega arith)
      ∙ ap (λ m. hexes (take 15 s) ++ written m (i + 1) (drop 15 s)) (omega arith) in
    append_assoc (lead l i) ((if l % 16 == 0 then b' ' ∷ [] else []) ++ hex_byte c) _
    ∙ ap
        (λ b.
          lead l i
          ++ (((if b then b' ' ∷ [] else []) ++ hex_byte c) ++ written (l + 1) (next l i) s))
        half_yes
    ∙ ap (λ t. lead l i ++ (b' ' ∷ (hex_byte c ++ t))) body
    ∙ ap (λ t. lead l i ++ (b' ' ∷ t)) (sym (append_assoc (hex_byte c) (hexes (take 15 s)) _))

written-row :
    (q l index c : ℕ) (s : Bytes)
    → l ≡ 32 * q
    → written l index (c ∷ s)
      ≡ sep q ++ (row index (c ∷ s) ++ written (l + 32) (index + 1) (drop 32 (c ∷ s)))
written-row q l i c s e =
    let a = half (take 16 (c ∷ s)) in
    let b = half (take 16 (drop 15 s)) in
    let rest = written (l + 32) (i + 1) (drop 31 s) in
    let second : written (l + 16) (i + 1) (drop 15 s) ≡ b ++ rest =
      written-second_half q (l + 16) (i + 1) (drop 15 s) (omega arith)
      ∙ ap (λ m. b ++ written m (i + 1) (drop 16 (drop 15 s))) (omega arith)
      ∙ ap (λ t. b ++ written (l + 32) (i + 1) t) (drop-drop 15 16 31 s (omega arith)) in
    written-first_half q l i c s e
    ∙ ap (λ t. lead l i ++ (a ++ t)) second
    ∙ ap (λ t. t ++ (a ++ (b ++ rest))) (lead-sep q l i e)
    ∙ append_assoc (sep q) (head_of i) (a ++ (b ++ rest))
    ∙ ap (λ t. sep q ++ (head_of i ++ t)) (sym (append_assoc a b rest))
    ∙ ap (λ t. sep q ++ t) (sym (append_assoc (head_of i) (a ++ b) rest))

-- A row, and what follows it.
row_then :
    (fuel q l index c : ℕ) (s : Bytes)
    → l ≡ 32 * q
    → written (l + 32) (index + 1) (drop 31 s) ++ lf ∷ [] ≡ lf ∷ rows fuel (index + 1) (drop 31 s)
    → written l index (c ∷ s) ++ lf ∷ [] ≡ sep q ++ rows (suc fuel) index (c ∷ s)
row_then fuel q l i c s e after =
    ap (λ t. t ++ lf ∷ []) (written-row q l i c s e)
    ∙ append_assoc (sep q) _ (lf ∷ [])
    ∙ ap (λ t. sep q ++ t) (append_assoc (row i (c ∷ s)) _ (lf ∷ []))
    ∙ ap (λ t. sep q ++ (row i (c ∷ s) ++ t)) after

rows_left :
    (fuel q l index : ℕ) (s : Bytes)
    → l ≡ 32 * suc q
    → length s ≤ fuel
    → written l index s ++ lf ∷ [] ≡ lf ∷ rows fuel index s
rows_left zero q l i [] e h = refl
rows_left (suc fuel) q l i [] e h = refl
rows_left zero q l i (c ∷ s) e h = absurd (omega arith)
rows_left (suc fuel) q l i (c ∷ s) e h = row_then fuel (suc q) l i c s e (
    rows_left fuel (suc q) (l + 32) (i + 1) (drop 31 s) (omega arith)
      (omega (arith, length-drop 31 s)))

-- The loop and the line feed behind it write the rows.
pub written-dump :
    (index c : ℕ) (s : Bytes) → written 0 index (c ∷ s) ++ lf ∷ [] ≡ dump index (c ∷ s)
written-dump i c s =
    row_then (length s) 0 0 i c s (omega arith) (
      rows_left (length s) 0 32 (i + 1) (drop 31 s) (omega arith) (omega (arith, length-drop 31 s)))
