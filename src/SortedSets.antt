-- ===== src/SortedSets.antt =====
-- src/YSortedSet.h and src/YSortedSet.cpp: ZADD, and the two indices of a sorted set.
-- A `double` is its bit pattern; `atof` and the order `<` of doubles are the parameter `Doubles`.
pub mod Index
pub mod Laws
pub mod Typed
mod Tests
use yedis.Prelude.{
  ℕ, zero, suc, ◌+◌, ◌%◌, ◌≡◌, refl, Bool, true, false, not, Option, none, some, List, [], ◌∷◌,
  ◌++◌, Bytes, codes, crlf, length, drop, ltb, ◌==◌, if◌then◌else◌,
}
use yedis.Prelude.Int.{pos}
use yedis.Prelude.Assoc.{find, assign}
use yedis.Format.{format_int}
use yedis.Object.{YType, YError, SortedSet, Value, YObject, create_sset}
use yedis.Store
use yedis.Store.{Lookup}
use yedis.Exec.{Exec, Handler, ◌>>=◌, ◌>>◌, pure, return, crash, push, format, query, update, param}

-- No number is less than itself, a NaN included.
pub record Doubles : Type 0 where
  pub atof : Bytes → ℕ
  pub lt : ℕ → ℕ → Bool
  pub lt_irrefl : (a : ℕ) → lt a a ≡ false

-- `<` on `std::string`, by bytes.
unfoldable pub bytes_lt : Bytes → Bytes → Bool
bytes_lt s [] = false
bytes_lt [] (d ∷ t) = true
bytes_lt (c ∷ s) (d ∷ t) = let rest = bytes_lt s t in if c == d then rest else ltb c d

-- `Members::insert`: the set is in the order of its members.
unfoldable pub insert_member : Bytes → List Bytes → List Bytes
insert_member s [] = s ∷ []
insert_member s (t ∷ l) =
    let rest = insert_member s l in
    if bytes_lt t s then t ∷ rest else if bytes_lt s t then s ∷ t ∷ l else t ∷ l

unfoldable pub find_member : Bytes → SortedSet → Option ℕ
find_member member ss = find member ss.member2_scores

-- The error reply, without its line break.
abbrev pub error_type : Bytes
error_type = codes "-ERR error type"

abbrev pub sorted_set_found : Bytes → Lookup → Exec (Option YObject)
sorted_set_found name (Lookup.ok o) = pure (some o)
sorted_set_found name Lookup.wrong_type = do push error_type; pure none
sorted_set_found name Lookup.not_exist = do push error_type; pure none

unfoldable pub get_sortedset : Bytes → Exec (Option YObject)
get_sortedset name = do
  l ← query (Store.get_value_by_type name YType.sorted_set true)
  sorted_set_found name l

abbrev pub sorted_set_made : Bytes → Lookup → Exec (Option YObject)
sorted_set_made name (Lookup.ok o) = pure (some o)
sorted_set_made name Lookup.wrong_type = do push error_type; pure none
sorted_set_made name Lookup.not_exist = do
  update (Store.set_value name create_sset)
  query (Store.get_object name)

unfoldable pub get_or_create_sortedset : Bytes → Exec (Option YObject)
get_or_create_sortedset name = do
  l ← query (Store.get_value_by_type name YType.sorted_set true)
  sorted_set_made name l

abbrev pub sorted_set_of : Value → Exec SortedSet
sorted_set_of (Value.sset ss) = pure ss
sorted_set_of _ = crash

abbrev pub put_sorted_set : Bytes → YObject → SortedSet → Exec (Unit {0})
put_sorted_set name o ss = update (Store.update_object name (record o { value = Value.sset ss }))

module _ (doubles : Doubles) where
  -- `m_Score2Members[score].insert(member)`: the entry of an equivalent key, or a new one in order.
  unfoldable pub insert_score : ℕ → Bytes → List (ℕ × List Bytes) → List (ℕ × List Bytes)
  unfolding insert_member
  insert_score score member [] = (score, insert_member member []) ∷ []
  insert_score score member ((t, ms) ∷ rest) =
      let later = insert_score score member rest in
      if doubles.lt t score
      then (t, ms) ∷ later
      else if doubles.lt score t
      then (score, insert_member member []) ∷ (t, ms) ∷ rest
      else (t, insert_member member ms) ∷ rest

  -- Behind `assert (findMember(member) == m_Member2Scores.end())`.
  abbrev pub added : Bytes → ℕ → SortedSet → SortedSet
  added member score ss = record {
    score2_members = insert_score score member ss.score2_members;
    member2_scores = assign member score ss.member2_scores;
  }

  abbrev pub add_if_absent : Bytes → ℕ → SortedSet → Option ℕ → Exec SortedSet
  add_if_absent member score ss none = pure (added member score ss)
  add_if_absent member score ss (some s) = crash

  unfoldable pub add_member : Bytes → ℕ → SortedSet → Exec SortedSet
  unfolding find_member insert_score
  add_member member score ss = add_if_absent member score ss (find_member member ss)

  -- One round of the loop of ZADD; a member that is there keeps its score.
  abbrev pub zadd_one : Bytes → ℕ → SortedSet × ℕ → Option ℕ → Exec (SortedSet × ℕ)
  zadd_one member score (ss, n) none = do ss' ← add_member member score ss; pure (ss', n + 1)
  zadd_one member score (ss, n) (some s) = pure (ss, n)

  -- The loop over pairs of score and member; a score without a member is a read out of range.
  unfoldable pub zadd_all : List Bytes → SortedSet × ℕ → Exec (SortedSet × ℕ)
  unfolding add_member
  zadd_all [] r = pure r
  zadd_all (score ∷ []) r = crash
  zadd_all (score ∷ member ∷ rest) r = do
    r' ← zadd_one member (doubles.atof score) r (find_member member r.0)
    zadd_all rest r'

  -- A null pointer is `none`, and the cast reads through it.
  abbrev pub zadd_found : Bytes → List Bytes → Option YObject → Exec (Option YError)
  zadd_found name pairs none = crash
  zadd_found name pairs (some o) = do
    ss ← sorted_set_of o.value
    r ← zadd_all pairs (ss, 0)
    put_sorted_set name o r.0
    format (format_int (pos r.1))
    return YError.ok

  abbrev pub zadd_pairs : List Bytes → Bool → Exec (Option YError)
  zadd_pairs params false = do push (codes "-ERR syntax error" ++ crlf); return YError.syntax
  zadd_pairs params true = do
    name ← param 1 params
    o ← get_or_create_sortedset name
    zadd_found name (drop 2 params) o

  unfoldable pub zadd : Handler
  unfolding get_or_create_sortedset zadd_all
  zadd params = zadd_pairs params (length params % 2 == 0)
