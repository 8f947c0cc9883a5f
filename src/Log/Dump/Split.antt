-- ===== src/Log/Dump/Split.antt =====
-- The rows of bytes that are cut where a row ends.
use yedis.Prelude.{
  ℕ, zero, suc, ◌+◌, ◌-◌, ◌*◌, ◌≤◌, ◌≡◌, refl, sym, ap, ◌∙◌, [], ◌∷◌, ◌++◌, append_assoc, Bytes, lf,
  length, take, drop, length-drop, take-nil, arith,
}
use yedis.Prelude.Memory.{drop-drop, take-take, drop-take}
use yedis.Log.Dump.{head_of}
use yedis.Log.Dump.Rows.{half, row, rows}

drop-nil : (k : ℕ) → drop {A = ℕ} k [] ≡ []
drop-nil zero = refl
drop-nil (suc k) = refl

pub rows-nil : (f i : ℕ) → rows f i [] ≡ []
rows-nil zero i = refl
rows-nil (suc f) i = refl

pub rows-fuel : (f g i : ℕ) (s : Bytes) → length s ≤ f → length s ≤ g → rows f i s ≡ rows g i s
rows-fuel f g i [] h k = rows-nil f i ∙ sym (rows-nil g i)
rows-fuel zero g i (c ∷ s) h k = absurd (omega arith)
rows-fuel (suc f) zero i (c ∷ s) h k = absurd (omega arith)
rows-fuel (suc f) (suc g) i (c ∷ s) h k =
    ap (λ t. row i (c ∷ s) ++ lf ∷ t)
      (rows-fuel f g (i + 1) (drop 31 s) (omega (arith, length-drop 31 s))
        (omega (arith, length-drop 31 s)))

row-take : (k i : ℕ) (s : Bytes) → 32 ≤ k → row i (take k s) ≡ row i s
row-take k i s h =
    ap (λ t. head_of i ++ (half t ++ half (take 16 (drop 16 (take k s)))))
      (take-take 16 k s (omega arith))
    ∙ ap (λ t. head_of i ++ (half (take 16 s) ++ half (take 16 t)))
        (drop-take 16 k (k - 16) s (omega arith))
    ∙ ap (λ t. head_of i ++ (half (take 16 s) ++ half t))
        (take-take 16 (k - 16) (drop 16 s) (omega arith))

pub rows-split :
    (n k f i : ℕ) (s : Bytes)
    → k ≡ 32 * n
    → length s ≤ f
    → rows f i s ≡ rows f i (take k s) ++ rows f (i + n) (drop k s)
rows-split n k f i [] e h =
    rows-nil f i
    ∙ sym (rows-nil f (i + n))
    ∙ ap (λ t. t ++ rows f (i + n) []) (sym (rows-nil f i))
    ∙ ap (λ t. rows f i t ++ rows f (i + n) []) (sym (take-nil _ k))
    ∙ ap (λ t. rows f i (take k []) ++ rows f (i + n) t) (sym (drop-nil k))
rows-split n k zero i (c ∷ s) e h = absurd (omega arith)
rows-split zero zero (suc f) i (c ∷ s) e h = ap (λ j. rows (suc f) j (c ∷ s)) (omega arith)
rows-split zero (suc k) f i (c ∷ s) e h = absurd (omega arith)
rows-split (suc n) zero f i (c ∷ s) e h = absurd (omega arith)
rows-split (suc n) (suc k) (suc f) i (c ∷ s) e h =
    let left = rows f (i + 1) (take (k - 31) (drop 31 s)) in
    let right = rows f (i + 1 + n) (drop (k - 31) (drop 31 s)) in
    let behind : right ≡ rows (suc f) (i + suc n) (drop k s) =
      ap (λ t. rows f (i + 1 + n) t) (drop-drop 31 (k - 31) k s (omega arith))
      ∙ rows-fuel f (suc f) (i + 1 + n) (drop k s) (omega (arith, length-drop k s))
          (omega (arith, length-drop k s))
      ∙ ap (λ j. rows (suc f) j (drop k s)) (omega arith) in
    ap (λ t. row i (c ∷ s) ++ lf ∷ t)
      (rows-split n (k - 31) f (i + 1) (drop 31 s) (omega arith) (omega (arith, length-drop 31 s)))
    ∙ ap (λ t. t ++ lf ∷ (left ++ right)) (sym (row-take (suc k) i (c ∷ s) (omega arith)))
    ∙ sym (append_assoc (row i (c ∷ take k s)) (lf ∷ left) right)
    ∙ ap (λ t. (row i (c ∷ take k s) ++ lf ∷ rows f (i + 1) t) ++ right)
        (sym (drop-take 31 k (k - 31) s (omega arith)))
    ∙ ap (λ t. rows (suc f) i (c ∷ take k s) ++ t) behind
