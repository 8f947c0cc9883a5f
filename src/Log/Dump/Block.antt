-- ===== src/Log/Dump/Block.antt =====
-- The block that `formLog` writes to: what one round does to it.
use yedis.Prelude.{
  ℕ, zero, suc, ◌+◌, ◌-◌, ◌/◌, ◌%◌, ◌^◌, ◌≤◌, ◌<◌, ◌≡◌, refl, sym, ap, ◌∙◌, Bool, true, List, subst,
  [], ◌∷◌, ◌++◌, append_assoc, Bytes, length, take, replicate, All, length-append, ltb, ◌&&◌, arith,
  le→leb,
}
use yedis.Prelude.Memory.{overwrite, overlay, take-all, length-replicate}
use yedis.Outcome.{Outcome, done, ◌>>=◌}
use yedis.Buffer.{assert}
use yedis.Decimal.{print_nat}
use yedis.Decimal.Value.{IsDigit, print_nat-All, length-print_nat}
use yedis.Log.Dump.{
  ullto4_str, nth, hex_digits, hex_byte, strlen, c_str, put_at, Form, put_char, head_of, put_header,
}

-- A character that is not the null character.
abbrev pub IsText : ℕ → Type 0
IsText c = 0 < c

pub All-append {ℓ κ} :
    {A : Type ℓ} (P : A → Type κ) (s t : List A) → All P s → All P t → All P (s ++ t)
All-append P [] t h k = k
All-append P (c ∷ s) t h k = (h.0, All-append P s t h.1 k)

IsDigit-IsText : (s : Bytes) → All IsDigit s → All IsText s
IsDigit-IsText [] h = h
IsDigit-IsText (c ∷ s) h = (omega (arith, h.0.0), IsDigit-IsText s h.1)

replicate-All : (n c : ℕ) → 0 < c → All IsText (replicate n c)
replicate-All zero c p = tt
replicate-All (suc n) c p = (p, replicate-All n c p)

length-print_u32 : (n : ℕ) → length (print_nat (n % 2 ^ 32)) ≤ 10
length-print_u32 n = length-print_nat 10 (n % 2 ^ 32) (omega arith) (omega arith)

length-ullto4_str : (n : ℕ) → length (ullto4_str n) ≤ 10
unfolding ullto4_str
length-ullto4_str n =
    let p = print_nat (n % 2 ^ 32) in
    omega (
      arith,
      length-print_u32 n,
      length-append (replicate (6 - length p) b'0') p,
      length-replicate (6 - length p) b'0',
    )

head_of_lem : (n : ℕ) → head_of n ≡ ullto4_str n ++ b' ' ∷ []
head_of_lem n =
    ap (λ s. s ++ b' ' ∷ []) (take-all 64 (ullto4_str n) (omega (arith, length-ullto4_str n)))

pub length-head_of : (n : ℕ) → length (head_of n) ≤ 11
length-head_of n = omega (
  arith,
  ap length (head_of_lem n),
  length-append (ullto4_str n) (b' ' ∷ []),
  length-ullto4_str n,
)

pub length-head_of_pos : (n : ℕ) → 0 < length (head_of n)
length-head_of_pos n = omega (arith, length-append (take 64 (ullto4_str n)) (b' ' ∷ []))

pub head_of-All : (n : ℕ) → All IsText (head_of n)
unfolding ullto4_str
head_of-All n =
    let p = print_nat (n % 2 ^ 32) in
    subst (All IsText) (sym (head_of_lem n)) (
      All-append IsText (ullto4_str n) (b' ' ∷ [])
        (All-append IsText (replicate (6 - length p) b'0') p
          (replicate-All (6 - length p) b'0' (omega arith))
          (IsDigit-IsText p (print_nat-All (n % 2 ^ 32))))
        (omega arith, tt))

nth-IsText : (n : ℕ) (s : Bytes) → n < length s → All IsText s → IsText (nth n s)
nth-IsText n [] h v = absurd (omega arith)
nth-IsText zero (c ∷ s) h v = v.0
nth-IsText (suc n) (c ∷ s) h v = nth-IsText n s (omega arith) v.1

all_text : Bytes → Bool
all_text [] = true
all_text (c ∷ s) = ltb 0 c && all_text s

all_text_sound : (s : Bytes) → all_text s ≡ true → All IsText s
unfolding all_text
all_text_sound [] h = tt
all_text_sound (c ∷ s) h = (ground arith, all_text_sound s (ground arith))

hex_digits-All : All IsText hex_digits
unfolding all_text
hex_digits-All = all_text_sound hex_digits refl

pub hex_byte-All : (c : ℕ) → All IsText (hex_byte c)
hex_byte-All c = (
  nth-IsText (c / 16 % 16) hex_digits (omega arith) hex_digits-All,
  (nth-IsText (c % 16) hex_digits (omega arith) hex_digits-All, tt),
)

overlay-zeros :
    (d : Bytes) (n m : ℕ) → n ≡ length d + m → overlay d (replicate n 0) ≡ d ++ replicate m 0
unfolding overlay
overlay-zeros [] n m e = ap (λ k. replicate k 0) (omega arith)
overlay-zeros (c ∷ d) zero m e = absurd (omega arith)
overlay-zeros (c ∷ d) (suc n) m e = ap (λ s. c ∷ s) (overlay-zeros d n m (omega arith))

-- Characters that are written at the end of the text.
overwrite-end :
    (out d : Bytes) (n m : ℕ)
    → n ≡ length d + m
    → overwrite (length out) d (out ++ replicate n 0) ≡ out ++ (d ++ replicate m 0)
unfolding overwrite
overwrite-end [] d n m e = overlay-zeros d n m e
overwrite-end (c ∷ out) d n m e = ap (λ s. c ∷ s) (overwrite-end out d n m e)

strlen-end :
    (out : Bytes) (n : ℕ) → All IsText out → strlen (out ++ replicate (suc n) 0) ≡ done (length out)
strlen-end [] n v = refl
strlen-end (zero ∷ out) n v = absurd (omega (arith, v.0))
strlen-end (suc c ∷ out) n v =
    ap (λ (o : Outcome ℕ). o >>= λ k. done (suc k)) (strlen-end out n v.1)

pub c_str-end : (out more : Bytes) → All IsText out → c_str (out ++ 0 ∷ more) ≡ out
c_str-end [] more v = refl
c_str-end (zero ∷ out) more v = absurd (omega (arith, v.0))
c_str-end (suc c ∷ out) more v = ap (λ s. suc c ∷ s) (c_str-end out more v.1)

put_at-end :
    (out d : Bytes) (n m : ℕ)
    → n ≡ length d + m
    → put_at (length out) d (out ++ replicate n 0) ≡ done (out ++ (d ++ replicate m 0))
put_at-end out d n m e =
    ap (λ b. assert b (overwrite (length out) d (out ++ replicate n 0)))
      (le→leb (length out + length d) (length (out ++ replicate n 0))
        (omega (arith, length-append out (replicate n 0), length-replicate n 0)))
    ∙ ap done (overwrite-end out d n m e)

-- A block of `size` characters that holds the text `out`.
abbrev pub block : ℕ → Bytes → Bytes
block size out = out ++ replicate (size - length out) 0

abbrev pub form : ℕ → ℕ → ℕ → ℕ → Bytes → Form
form size index l headlen out = record {
  index = index;
  len = length out;
  lsize = l;
  headlen = headlen;
  szbuf = block size out;
}

module _ (size : ℕ) where
  put_at-block :
      (out d : Bytes)
      → length out + length d ≤ size
      → put_at (length out) d (block size out) ≡ done (block size (out ++ d))
  put_at-block out d h =
      let m = size - length (out ++ d) in
      put_at-end out d (size - length out) m (omega (arith, length-append out d))
      ∙ ap done (sym (append_assoc out d (replicate m 0)))

  pub put_char-form :
      (c i l h : ℕ) (out : Bytes)
      → length out < size
      → put_char c (form size i l h out) ≡ done (form size i l h (out ++ c ∷ []))
  put_char-form c i l h out p =
      ap
        (λ (o : Outcome Bytes).
          o >>= λ buf. done (record (form size i l h out) { len = length out + 1; szbuf = buf }))
        (put_at-block out (c ∷ []) (omega arith))
      ∙ ap (λ k. done (record (form size i l h (out ++ c ∷ [])) { len = k }))
          (omega (arith, length-append out (c ∷ [])))

  -- The null character behind the header is one that was there.
  put_at-null :
      (out d : Bytes)
      → length out + length d < size
      → put_at (length out) (d ++ 0 ∷ []) (block size out) ≡ done (block size (out ++ d))
  put_at-null out d h =
      let m = size - suc (length (out ++ d)) in
      let e : size - length (out ++ d) ≡ suc m = omega (arith, length-append out d) in
      put_at-end out (d ++ 0 ∷ []) (size - length out) m
        (omega (arith, length-append out d, length-append d (0 ∷ [])))
      ∙ ap (λ s. done (out ++ s)) (append_assoc d (0 ∷ []) (replicate m 0))
      ∙ ap (λ k. done (out ++ (d ++ replicate k 0))) (sym e)
      ∙ ap done (sym (append_assoc out d (replicate (size - length (out ++ d)) 0)))

  pub put_header-form :
      (i l h : ℕ) (out : Bytes)
      → All IsText out
      → length out + 11 < size
      → put_header (form size i l h out)
        ≡ done (form size (i + 1) l (length (head_of i)) (out ++ head_of i))
  put_header-form i l h out v p =
      let d = head_of i in
      let f = form size i l h out in
      let with_buf : Bytes → Outcome Form = λ buf. done (record f {
        index = i + 1;
        headlen = length d;
        len = length out + length d;
        szbuf = buf;
      }) in
      let e : size - length out ≡ suc (size - length out - 1) = omega arith in
      ap (λ (o : Outcome ℕ). o >>= λ at. put_at at (d ++ 0 ∷ []) f.szbuf >>= with_buf)
        (ap (λ k. strlen (out ++ replicate k 0)) e ∙ strlen-end out (size - length out - 1) v)
      ∙ ap (λ (o : Outcome Bytes). o >>= with_buf)
          (put_at-null out d (omega (arith, length-head_of i)))
      ∙ ap (λ k. done (record (form size (i + 1) l (length d) (out ++ d)) { len = k }))
          (sym (length-append out d))
