-- ===== src/Net/SelectPoller/Updates.antt =====
-- What an update does to the list of events.
use yedis.Prelude.{
  ℕ, ◌≡◌, ◌≢◌, refl, sym, ap, ◌∙◌, Bool, true, false, List, [], ◌∷◌, ◌++◌, ◌==◌, ◌||◌,
  if◌then◌else◌, arith, ==_refl,
}
use yedis.Prelude.Maps.{if-cases}
use yedis.Net.Channel.{Events}
use yedis.Net.SelectPoller.{EventList, replace_event}

found-first :
    {A : Type 0} (b : Bool) (x : Bool × List A) (y : A) (r : Bool × List A) (c : Bool)
    → x.0 ≡ true
    → r.0 ≡ c
    → (if b then x else (r.0, y ∷ r.1)).0 ≡ b || c
found-first true x y r c h k = h
found-first false x y r c h k = k

or_assoc : (a b c : Bool) → a || (b || c) ≡ (a || b) || c
or_assoc true b c = refl
or_assoc false b c = refl

pub or-true : (a : Bool) → a || true ≡ true
or-true true = refl
or-true false = refl

abbrev pub is_listed : ℕ → EventList → Bool
is_listed p [] = false
is_listed p ((q, e) ∷ l) = q == p || is_listed p l

pub replace_event-is_listed :
    (p : ℕ) (new l : EventList) → (replace_event p new l).0 ≡ is_listed p l
unfolding replace_event
replace_event-is_listed p new [] = refl
replace_event-is_listed p new ((q, e) ∷ l) =
    found-first (q == p) (true, new ++ l) (q, e) (replace_event p new l) (is_listed p l) refl
      (replace_event-is_listed p new l)

pub is_listed-append :
    (r : ℕ) (l m : EventList) → is_listed r (l ++ m) ≡ is_listed r l || is_listed r m
is_listed-append r [] m = refl
is_listed-append r ((q, e) ∷ l) m =
    ap (λ b. q == r || b) (is_listed-append r l m)
    ∙ or_assoc (q == r) (is_listed r l) (is_listed r m)

-- Another pointer stays listed, if the new events are of `p` only.
pub is_listed-replace_other :
    (r p : ℕ) (new l : EventList)
    → r ≢ p
    → is_listed r new ≡ false
    → is_listed r (replace_event p new l).1 ≡ is_listed r l
unfolding replace_event
is_listed-replace_other r p new [] h k = refl
is_listed-replace_other r p new ((q, e) ∷ l) h k =
    if-cases (λ (m : Bool × EventList). is_listed r m.1 ≡ is_listed r ((q, e) ∷ l)) (q == p)
      (λ a.
        let apart : (q == r) ≡ false = ground arith in
        is_listed-append r new l
        ∙ ap (λ b. b || is_listed r l) k
        ∙ sym (ap (λ b. b || is_listed r l) apart))
      (λ a. ap (λ b. q == r || b) (is_listed-replace_other r p new l h k))

-- A pointer whose events are written stays listed.
pub is_listed-replace_same :
    (p : ℕ) (e : Events) (l : EventList)
    → is_listed p (replace_event p ((p, e) ∷ []) l).1 ≡ is_listed p l
unfolding replace_event
is_listed-replace_same p e [] = refl
is_listed-replace_same p e ((q, e') ∷ l) =
    if-cases (λ (m : Bool × EventList). is_listed p m.1 ≡ is_listed p ((q, e') ∷ l)) (q == p)
      (λ a. ap (λ b. b || is_listed p l) (==_refl p ∙ sym a))
      (λ a. ap (λ b. q == p || b) (is_listed-replace_same p e l))
