-- ===== src/Prelude/Maps.antt =====
-- A map with keys in ℕ, and memory with addresses in ℕ, as functions.
use Prim.Native.Nat.{ℕ}
use mathlib.Core.Bool.{Bool, true, false}
use mathlib.Core.Path.{◌≡◌, refl, sym, ap, ◌∙◌}
use mathlib.Core.Logic.{◌≢◌, ◌⊎◌, inl, inr}
use native.Mathlib.Omega.{arith}
use yedis.Prelude.Tests.{◌==◌, if◌then◌else◌, Bool-cases, ==_refl}

pub same_or_not : (i j : ℕ) → (i ≡ j) ⊎ (i ≢ j)
same_or_not i j = elim (Bool-cases (i == j)) [
  | inl e ↦ inl (ground arith)
  | inr e ↦ inr (ground arith)
]

module _ {ℓ} {A : Type ℓ} where
  -- The value at one key is replaced.
  unfoldable pub put : ℕ → A → (ℕ → A) → ℕ → A
  put k v f j = if j == k then v else f j

  pub put-same : (k : ℕ) (v : A) (f : ℕ → A) → put k v f k ≡ v
  unfolding put
  put-same k v f = ap (λ b. if b then v else f k) (==_refl k)

  pub put-other : {k j : ℕ} (v : A) (f : ℕ → A) → j ≢ k → put k v f j ≡ f j
  unfolding put
  put-other {k} {j} v f h =
      let apart : (j == k) ≡ false = ground arith in ap (λ b. if b then v else f j) apart

  -- What holds of either branch, under its condition, holds of a test.
  pub if-cases {κ} :
      (P : A → Type κ) (b : Bool) {v w : A}
      → (b ≡ true → P v)
      → (b ≡ false → P w)
      → P (if b then v else w)
  if-cases P true p q = p refl
  if-cases P false p q = q refl

  if-All {κ} : (P : A → Type κ) (b : Bool) {v w : A} → P v → P w → P (if b then v else w)
  if-All P true p q = p
  if-All P false p q = q

  -- What holds of the new value and of the old one holds of what is there.
  pub put-All {κ} : (P : A → Type κ) (k j : ℕ) (v : A) (f : ℕ → A) → P v → P (f j) → P (put k v f j)
  unfolding put
  put-All P k j v f p q = if-All P (j == k) p q

  -- A field that the new value keeps is the old one everywhere.
  pub put-keeps {κ} :
      {B : Type κ} (g : A → B) (k : ℕ) (v : A) (f : ℕ → A)
      → g v ≡ g (f k)
      → (j : ℕ) → g (put k v f j) ≡ g (f j)
  put-keeps g k v f h j = elim (same_or_not j k) [
    | inl e ↦ ap (λ i. g (put k v f i)) e ∙ ap g (put-same k v f) ∙ h ∙ sym (ap (λ i. g (f i)) e)
    | inr e ↦ ap g (put-other v f e)
  ]

  -- What is there is the new value or the old one.
  pub put-cases :
      (k j : ℕ) (v w : A) (f : ℕ → A)
      → put k v f j ≡ w
      → ((j ≡ k) × (v ≡ w)) ⊎ ((j ≢ k) × (f j ≡ w))
  put-cases k j v w f h = elim (same_or_not j k) [
    | inl e ↦ inl (e, sym (put-same k v f) ∙ ap (put k v f) (sym e) ∙ h)
    | inr e ↦ inr (e, sym (put-other v f e) ∙ h)
  ]
