-- ===== src/Prelude/Memory.antt =====
-- A block of bytes that is written in place: `std::copy`, `memcpy` and `memmove` into a vector, and
-- the bytes between two indices.
use Prim.Native.Nat.{ℕ, zero, suc, ◌+◌, ◌-◌, ◌≤◌}
use mathlib.Core.Path.{◌≡◌, refl, sym, ap, ◌∙◌}
use mathlib.Core.List.{[], ◌∷◌, ◌++◌, append-nil}
use native.Mathlib.Omega.{arith}
use yedis.Prelude.Lists.{
  length, take, drop, replicate, length-take, length-drop, take-length_add, take-nil,
}
use yedis.Prelude.Text.{Bytes}

-- The first bytes are replaced; a write past the end changes nothing there.
unfoldable pub overlay : Bytes → Bytes → Bytes
overlay [] buf = buf
overlay (c ∷ d) [] = []
overlay (c ∷ d) (x ∷ buf) = c ∷ overlay d buf

-- The bytes from an index on are replaced.
unfoldable pub overwrite : ℕ → Bytes → Bytes → Bytes
unfolding overlay
overwrite zero d buf = overlay d buf
overwrite (suc at) d [] = []
overwrite (suc at) d (x ∷ buf) = x ∷ overwrite at d buf

-- `n` bytes from index `r` on.
abbrev pub bytes_at : ℕ → ℕ → Bytes → Bytes
bytes_at r n buf = take n (drop r buf)

length-overlay : (d buf : Bytes) → length (overlay d buf) ≡ length buf
unfolding overlay
length-overlay [] buf = refl
length-overlay (c ∷ d) [] = refl
length-overlay (c ∷ d) (x ∷ buf) = ap suc (length-overlay d buf)

pub length-overwrite : (at : ℕ) (d buf : Bytes) → length (overwrite at d buf) ≡ length buf
unfolding overwrite
length-overwrite zero d buf = length-overlay d buf
length-overwrite (suc at) d [] = refl
length-overwrite (suc at) d (x ∷ buf) = ap suc (length-overwrite at d buf)

take-overlay :
    (d buf : Bytes) (n k : ℕ)
    → k ≡ length d + n
    → length d ≤ length buf
    → take k (overlay d buf) ≡ d ++ take n (drop (length d) buf)
unfolding overlay
take-overlay [] buf n k e h = ap (λ m. take m buf) (omega arith)
take-overlay (c ∷ d) [] n k e h = absurd (omega arith)
take-overlay (c ∷ d) (x ∷ buf) n zero e h = absurd (omega arith)
take-overlay (c ∷ d) (x ∷ buf) n (suc k) e h =
    ap (λ l. c ∷ l) (take-overlay d buf n k (omega arith) (omega arith))

-- Bytes that are written just before others are read together with them.
pub bytes_at-overwrite_before :
    (at : ℕ) (d buf : Bytes) (n k r : ℕ)
    → k ≡ length d + n
    → r ≡ at + length d
    → r ≤ length buf
    → bytes_at at k (overwrite at d buf) ≡ d ++ bytes_at r n buf
unfolding overwrite
bytes_at-overwrite_before zero d buf n k r e q h =
    take-overlay d buf n k e (omega arith) ∙ ap (λ m. d ++ take n (drop m buf)) (omega arith)
bytes_at-overwrite_before (suc at) d [] n k r e q h = absurd (omega arith)
bytes_at-overwrite_before (suc at) d (x ∷ buf) n k zero e q h = absurd (omega arith)
bytes_at-overwrite_before (suc at) d (x ∷ buf) n k (suc r) e q h =
    bytes_at-overwrite_before at d buf n k r e (omega arith) (omega arith)

take-overwrite_after :
    (n : ℕ) (d buf : Bytes) (k : ℕ)
    → k ≡ n + length d
    → k ≤ length buf
    → take k (overwrite n d buf) ≡ take n buf ++ d
unfolding overwrite
take-overwrite_after zero d buf k e h =
    take-overlay d buf 0 k (omega arith) (omega arith) ∙ append-nil d
take-overwrite_after (suc n) d [] k e h = absurd (omega arith)
take-overwrite_after (suc n) d (x ∷ buf) zero e h = absurd (omega arith)
take-overwrite_after (suc n) d (x ∷ buf) (suc k) e h =
    ap (λ l. x ∷ l) (take-overwrite_after n d buf k (omega arith) (omega arith))

-- Bytes that are written just behind others are read together with them.
pub bytes_at-overwrite_after :
    (r n w k : ℕ) (d buf : Bytes)
    → w ≡ r + n
    → k ≡ n + length d
    → w + length d ≤ length buf
    → bytes_at r k (overwrite w d buf) ≡ bytes_at r n buf ++ d
unfolding overwrite
bytes_at-overwrite_after zero n w k d buf e q h =
    ap (λ m. take k (overwrite m d buf)) (omega arith)
    ∙ take-overwrite_after n d buf k q (omega arith)
bytes_at-overwrite_after (suc r) n zero k d buf e q h = absurd (omega arith)
bytes_at-overwrite_after (suc r) n (suc w) k d [] e q h = absurd (omega arith)
bytes_at-overwrite_after (suc r) n (suc w) k d (x ∷ buf) e q h =
    bytes_at-overwrite_after r n w k d buf (omega arith) q (omega arith)

take-append_left : (n : ℕ) (buf more : Bytes) → n ≤ length buf → take n (buf ++ more) ≡ take n buf
take-append_left zero buf more h = refl
take-append_left (suc n) [] more h = absurd (omega arith)
take-append_left (suc n) (x ∷ buf) more h =
    ap (λ l. x ∷ l) (take-append_left n buf more (omega arith))

-- A vector that has grown holds the bytes that it held.
pub bytes_at-append :
    (r n : ℕ) (buf more : Bytes)
    → r + n ≤ length buf
    → bytes_at r n (buf ++ more) ≡ bytes_at r n buf
bytes_at-append zero n buf more h = take-append_left n buf more (omega arith)
bytes_at-append (suc r) n [] more h = absurd (omega arith)
bytes_at-append (suc r) n (x ∷ buf) more h = bytes_at-append r n buf more (omega arith)

pub take-take : (k n : ℕ) (buf : Bytes) → k ≤ n → take k (take n buf) ≡ take k buf
take-take zero n buf h = refl
take-take (suc k) zero buf h = absurd (omega arith)
take-take (suc k) (suc n) [] h = refl
take-take (suc k) (suc n) (x ∷ buf) h = ap (λ l. x ∷ l) (take-take k n buf (omega arith))

pub drop-take : (k n m : ℕ) (buf : Bytes) → n ≡ k + m → drop k (take n buf) ≡ take m (drop k buf)
drop-take zero n m buf h = ap (λ i. take i buf) (omega arith)
drop-take (suc k) zero m buf h = absurd (omega arith)
drop-take (suc k) (suc n) m [] h = sym (take-nil _ m)
drop-take (suc k) (suc n) m (x ∷ buf) h = drop-take k n m buf (omega arith)

pub drop-drop : (r k s : ℕ) (buf : Bytes) → s ≡ r + k → drop k (drop r buf) ≡ drop s buf
drop-drop zero k s buf h = ap (λ i. drop i buf) (omega arith)
drop-drop (suc r) k zero buf h = absurd (omega arith)
drop-drop (suc r) zero (suc s) [] h = refl
drop-drop (suc r) (suc k) (suc s) [] h = refl
drop-drop (suc r) k (suc s) (x ∷ buf) h = drop-drop r k s buf (omega arith)

-- The first of the bytes, and those behind them.
pub take-bytes_at : (r n k : ℕ) (buf : Bytes) → k ≤ n → take k (bytes_at r n buf) ≡ bytes_at r k buf
take-bytes_at r n k buf h = take-take k n (drop r buf) h

pub drop-bytes_at :
    (r n k s m : ℕ) (buf : Bytes)
    → n ≡ k + m
    → s ≡ r + k
    → drop k (bytes_at r n buf) ≡ bytes_at s m buf
drop-bytes_at r n k s m buf h q =
    drop-take k n m (drop r buf) h ∙ ap (take m) (drop-drop r k s buf q)

pub length-bytes_at : (r n : ℕ) (buf : Bytes) → r + n ≤ length buf → length (bytes_at r n buf) ≡ n
length-bytes_at r n buf h = omega (arith, length-take n (drop r buf), length-drop r buf)

-- All of the bytes are taken.
pub take-all : (n : ℕ) (s : Bytes) → length s ≤ n → take n s ≡ s
take-all n s h = ap (λ k. take k s) (omega arith) ∙ take-length_add s (n - length s)

pub take-drop : (n : ℕ) (s : Bytes) → take n s ++ drop n s ≡ s
take-drop zero s = refl
take-drop (suc n) [] = refl
take-drop (suc n) (c ∷ s) = ap (λ l. c ∷ l) (take-drop n s)

pub length-replicate : (n c : ℕ) → length (replicate n c) ≡ n
length-replicate zero c = refl
length-replicate (suc n) c = ap suc (length-replicate n c)

pub drop-all : (n : ℕ) (s : Bytes) → length s ≤ n → drop n s ≡ []
drop-all zero [] h = refl
drop-all zero (c ∷ s) h = absurd (omega arith)
drop-all (suc n) [] h = refl
drop-all (suc n) (c ∷ s) h = drop-all n s (omega arith)
