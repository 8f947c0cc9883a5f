-- ===== src/Decimal/Value.antt =====
-- The digits that are printed spell the number again, and there are few of them.
use yedis.Prelude.{
  ℕ, zero, suc, ◌+◌, ◌/◌, ◌%◌, ◌^◌, ◌≤◌, ◌<◌, ◌≡◌, refl, ap, ◌∙◌, [], ◌∷◌, inl, inr, arith, Bytes,
  All, length, ◌==◌, if◌then◌else◌, Bool-cases,
}
use native.Mathlib.Nat.{pow-suc}
use yedis.Decimal.{emit, print_nat, value}

abbrev pub IsDigit : ℕ → Type 0
IsDigit c = (b'0' ≤ c) × (c ≤ b'9')

value-emit : (fuel n : ℕ) (out : Bytes) → n ≤ fuel → value 0 (emit fuel n out) ≡ value n out
unfolding emit
value-emit zero n out h = ap (λ k. value k out) (omega arith)
value-emit (suc fuel) n out h = elim (Bool-cases (n == 0)) [
  | inl e ↦ rw (e, emit) (ap (λ k. value k out) (ground arith))
  | inr e ↦
      rw (e, emit)
        (value-emit fuel (n / 10) ((b'0' + n % 10) ∷ out) (ground arith)
          ∙ ap (λ k. value k out) (omega arith))
]

emit-All : (fuel n : ℕ) (out : Bytes) → All IsDigit out → All IsDigit (emit fuel n out)
unfolding emit
emit-All zero n out h = h
emit-All (suc fuel) n out h = elim (Bool-cases (n == 0)) [
  | inl e ↦ rw (e, emit) h
  | inr e ↦
      rw (e, emit) (emit-All fuel (n / 10) ((b'0' + n % 10) ∷ out) ((omega arith, omega arith), h))
]

-- `print_nat` writes digits only.
pub print_nat-All : (n : ℕ) → All IsDigit (print_nat n)
unfolding print_nat
print_nat-All n = elim (Bool-cases (n == 0)) [
  | inl e ↦ rw e (omega arith)
  | inr e ↦ rw e (emit-All n n [] tt)
]

pub value-print_nat : (n : ℕ) → value 0 (print_nat n) ≡ n
unfolding print_nat
value-print_nat n = elim (Bool-cases (n == 0)) [
  | inl e ↦ rw e (ground arith)
  | inr e ↦ rw e (value-emit n n [] (omega arith))
]

emit_zero : (fuel : ℕ) (out : Bytes) → emit fuel 0 out ≡ out
unfolding emit
emit_zero zero out = refl
emit_zero (suc fuel) out = refl

emit-suc :
    (fuel n : ℕ) (out : Bytes)
    → 0 < n
    → emit (suc fuel) n out ≡ emit fuel (n / 10) ((b'0' + n % 10) ∷ out)
unfolding emit
emit-suc fuel n out p = ground arith

-- The first byte exists and satisfies `P`.
abbrev pub Head : (ℕ → Type 0) → Bytes → Type 0
Head P [] = ⊥
Head P (c ∷ s) = P c

emit-Head : (fuel n : ℕ) (out : Bytes) → n ≤ fuel → 0 < n → Head (λ c. b'0' < c) (emit fuel n out)
emit-Head zero n out h p = absurd (omega arith)
emit-Head (suc fuel) n out h p = rw (emit-suc fuel n out p) (elim (Bool-cases (n / 10 == 0)) [
  | inl e ↦ let z : n / 10 ≡ 0 = ground arith in rw (z, emit_zero) (omega arith)
  | inr e ↦ emit-Head fuel (n / 10) ((b'0' + n % 10) ∷ out) (omega arith) (ground arith)
])

-- The print of a positive number does not begin with a zero.
pub print_nat-Head : (n : ℕ) → 0 < n → Head (λ c. b'0' < c) (print_nat n)
unfolding print_nat
print_nat-Head n p = elim (Bool-cases (n == 0)) [
  | inl e ↦ absurd (ground arith)
  | inr e ↦ rw (e, if◌then◌else◌) (emit-Head n n [] (omega arith) p)
]

length-emit : (k fuel n : ℕ) (out : Bytes) → n < 10 ^ k → length (emit fuel n out) ≤ k + length out
unfolding emit
length-emit k zero n out h = omega arith
length-emit zero (suc fuel) n out h = ground arith
length-emit (suc k) (suc fuel) n out h = elim (Bool-cases (n == 0)) [
  | inl e ↦ rw (e, emit) (omega arith)
  | inr e ↦
      rw (e, emit)
        (omega (
          arith,
          length-emit k fuel (n / 10) ((b'0' + n % 10) ∷ out) (omega (arith, pow-suc 10 k)),
        ))
]

-- A number below 10 ^ k has at most k digits.
pub length-print_nat : (k n : ℕ) → 0 < k → n < 10 ^ k → length (print_nat n) ≤ k
unfolding print_nat
length-print_nat k n p h = elim (Bool-cases (n == 0)) [
  | inl e ↦ rw (e, if◌then◌else◌) (omega arith)
  | inr e ↦ rw (e, if◌then◌else◌) (omega (arith, length-emit k n n [] h))
]

length-Head : (P : ℕ → Type 0) (s : Bytes) → Head P s → 0 < length s
length-Head P [] h = absurd h
length-Head P (c ∷ s) h = omega arith

-- The print of a number is not empty.
pub length-print_nat_pos : (n : ℕ) → 0 < length (print_nat n)
unfolding print_nat
length-print_nat_pos zero = omega arith
length-print_nat_pos (suc n) =
    length-Head (λ c. b'0' < c) (print_nat (suc n)) (print_nat-Head (suc n) (omega arith))
