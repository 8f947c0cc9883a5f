-- ===== src/Net/Pool.antt =====
-- net/EventLoopThreadPool.cpp: the loops that connections are given to in turn.
-- `started` gives the loops of the threads that are started, by number.
pub mod Turns
use yedis.Prelude.{
  ℕ, zero, suc, ◌+◌, ◌-◌, ◌%◌, ◌<◌, ◌≤◌, ◌≡◌, refl, sym, ap, ◌∙◌, Bool, true, false, Option, none,
  some, List, [], ◌∷◌, ◌++◌, length, get_elem?, leb, if◌then◌else◌, not, arith,
}
use yedis.Outcome.{Outcome, done, fault, ◌>>=◌}

pub record Pool : Type 0 where
  pub base_loop : Option ℕ
  pub started : Bool
  pub thread_numbers : ℕ
  pub next : ℕ
  pub loops : List ℕ

-- `EventLoopThreadPool()`
abbrev pub new_pool : Pool
new_pool = record { base_loop = none; started = false; thread_numbers = 0; next = 0; loops = [] }

unfoldable pub init : Option ℕ → ℕ → Pool → Pool
init base_loop threads s = record s { base_loop = base_loop; thread_numbers = threads }

-- The loops of `n` threads, from the one with number `i` on.
abbrev pub start_loops : (ℕ → ℕ) → ℕ → ℕ → List ℕ
start_loops start_loop i zero = []
start_loops start_loop i (suc n) = start_loop i ∷ start_loops start_loop (i + 1) n

abbrev pub start_with : (ℕ → ℕ) → Option ℕ → Pool → Pool
start_with start_loop none s = s
start_with start_loop (some base) s =
    if s.started
    then s
    else record s { started = true; loops = s.loops ++ start_loops start_loop 0 s.thread_numbers }

unfoldable pub start : (ℕ → ℕ) → Pool → Pool
start start_loop s = start_with start_loop s.base_loop s

-- The loop is `m_vecLoops[m_nNext]`.
abbrev pub give : Option ℕ → Pool → Outcome (Option ℕ × Pool)
give none s = fault
give (some loop) s =
    done
      (some loop, record s { next = if leb (length s.loops) (s.next + 1) then 0 else s.next + 1 })

abbrev pub take_turn : List ℕ → Pool → Outcome (Option ℕ × Pool)
take_turn [] s = done (s.base_loop, s)
take_turn (l ∷ loops) s = give (get_elem? (l ∷ loops) s.next) s

unfoldable pub get_next_loop : Pool → Outcome (Option ℕ × Pool)
get_next_loop s = if not s.started then done (none, s) else take_turn s.loops s
