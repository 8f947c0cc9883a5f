-- ===== src/Net/Pool/Turns.antt =====
-- The turns of the loops.
use yedis.Prelude.{
  ℕ, zero, suc, ◌+◌, ◌-◌, ◌*◌, ◌<◌, ◌≡◌, refl, ap, ◌∙◌, true, false, Option, some, length,
  get_elem?, leb, if◌then◌else◌, arith, le→leb,
}
use yedis.Outcome.{Outcome, done, ◌>>=◌}
use yedis.Net.Pool.{Pool, new_pool, init, start_loops, start, give, get_next_loop}

-- `k` connections are given to a loop.
abbrev pub after : ℕ → Pool → Outcome Pool
after zero s = done s
after (suc k) s = after k s >>= λ s'. get_next_loop s' >>= λ r. done r.1

get_elem?-start_loops :
    (start_loop : ℕ → ℕ) (i n j : ℕ)
    → j < n
    → get_elem? (start_loops start_loop i n) j ≡ some (start_loop (i + j))
get_elem?-start_loops f i zero j h = absurd (omega arith)
get_elem?-start_loops f i (suc n) zero h = ap (λ m. some (f m)) (omega arith)
get_elem?-start_loops f i (suc n) (suc j) h =
    get_elem?-start_loops f (i + 1) n j (omega arith) ∙ ap (λ m. some (f m)) (omega arith)

length-start_loops : (start_loop : ℕ → ℕ) (i n : ℕ) → length (start_loops start_loop i n) ≡ n
length-start_loops f i zero = refl
length-start_loops f i (suc n) = ap suc (length-start_loops f (i + 1) n)

-- The pool of `n` loops whose next is that with number `i`.
abbrev turn : (ℕ → ℕ) → ℕ → ℕ → ℕ → Pool
turn f base n i = record {
  base_loop = some base;
  started = true;
  thread_numbers = n;
  next = i;
  loops = start_loops f 0 n;
}

started : (f : ℕ → ℕ) (base n : ℕ) → start f (init (some base) n new_pool) ≡ turn f base n 0
unfolding start init
started f base n = refl

following : ℕ → ℕ → ℕ
following n i = if leb n (i + 1) then 0 else i + 1

get_next_loop-turn :
    (f : ℕ → ℕ) (base n i : ℕ)
    → i < n
    → get_next_loop (turn f base n i) ≡ done (some (f i), turn f base n (following n i))
unfolding get_next_loop following
get_next_loop-turn f base zero i h = absurd (omega arith)
get_next_loop-turn f base (suc n) i h =
    let here : 0 + i ≡ i = omega arith in
    let many : length (start_loops f 0 (suc n)) ≡ suc n = length-start_loops f 0 (suc n) in
    let choice : ℕ → ℕ → Outcome (Option ℕ × Pool) =
      λ m j. done (some (f j), turn f base (suc n) (if leb m (i + 1) then 0 else i + 1)) in
    ap (λ o. give o (turn f base (suc n) i)) (get_elem?-start_loops f 0 (suc n) i h)
    ∙ ap (λ m. choice m (0 + i)) many
    ∙ ap (choice (suc n)) here

following-last : (n i : ℕ) → i + 1 ≡ n → following n i ≡ 0
unfolding following
following-last n i h = ap (λ b. if b then 0 else i + 1) (le→leb n (i + 1) (omega arith))

following-inner : (n i : ℕ) → i + 1 < n → following n i ≡ suc i
unfolding following
following-inner n i h =
    let no : leb n (i + 1) ≡ false = ground arith in
    ap (λ b. if b then 0 else i + 1) no ∙ omega arith

after-get_next_loop :
    (f : ℕ → ℕ) (base n k i : ℕ)
    → i < n
    → after k (turn f base n 0) ≡ done (turn f base n i)
    → after (suc k) (turn f base n 0) ≡ done (turn f base n (following n i))
after-get_next_loop f base n k i h e =
    let served : Outcome (Option ℕ × Pool) → Outcome Pool = λ o. o >>= λ r. done r.1 in
    ap (λ (o : Outcome Pool). o >>= λ s'. served (get_next_loop s')) e
    ∙ ap served (get_next_loop-turn f base n i h)

-- The turn of the connection with number `k`.
after-turn :
    (f : ℕ → ℕ) (base n k q i : ℕ)
    → k ≡ q * n + i
    → i < n
    → after k (turn f base n 0) ≡ done (turn f base n i)
after-turn f base n zero q i e lt = ap (λ j. done (turn f base n j)) (omega arith)
after-turn f base n (suc k) zero zero e lt = absurd (omega arith)
after-turn f base n (suc k) (suc q) zero e lt =
    after-get_next_loop f base n k (n - 1) (omega arith)
      (after-turn f base n k q (n - 1) (omega arith) (omega arith))
    ∙ ap (λ j. done (turn f base n j)) (following-last n (n - 1) (omega arith))
after-turn f base n (suc k) q (suc i) e lt =
    after-get_next_loop f base n k i (omega arith)
      (after-turn f base n k q i (omega arith) (omega arith))
    ∙ ap (λ j. done (turn f base n j)) (following-inner n i (omega arith))

-- Connections are given to the loops of the pool's threads in turn: of the threads that are started,
-- at least one, the connection behind `q` full rounds and `i` more gets the loop with number `i`.
pub get_next_loop-after :
    (start_loop : ℕ → ℕ) (base threads q i : ℕ)
    → i < threads
    → (s s' : Pool) × (after
          (q * threads + i)
          (start start_loop (init (some base) threads new_pool))
        ≡ done s)
      × (get_next_loop s ≡ done (some (start_loop i), s'))
get_next_loop-after f base n q i h = (
  turn f base n i,
  turn f base n (following n i),
  ap (after (q * n + i)) (started f base n) ∙ after-turn f base n (q * n + i) q i refl h,
  get_next_loop-turn f base n i h,
)
