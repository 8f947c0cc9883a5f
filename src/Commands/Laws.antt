-- ===== src/Commands/Laws.antt =====
-- The table of the commands as a map, and the dispatch over what is registered.
use yedis.Prelude.{
  ℕ, ◌≡◌, ◌≢◌, refl, ap, sym, ◌∙◌, Option, none, some, List, [], ◌∷◌, Bytes, bytes_eq, bytes_eq_iff,
  if◌then◌else◌, Bool-cases, inl, inr,
}
use yedis.Prelude.Assoc.{Assoc, find, find-assign, find-erase}
use yedis.Store.{is_some}
use yedis.Exec.{Env, Handler}
use yedis.Sets.{HashTable}
use yedis.SortedSets.{Doubles}
use yedis.Commands.{
  Commands, add_command, del_command, exist_command, get_command, inserted, deleted, run,
  exec_command, add_all, registrations, init,
}

-- The first of two entries.
abbrev pub or_else : Option Handler → Option Handler → Option Handler
or_else none o = o
or_else (some h) o = some h

find-inserted :
    (c d : Bytes) (h : Handler) (table : Commands) (o : Option Handler)
    → find c table ≡ o
    → find d (inserted c h table o).1 ≡ (if bytes_eq c d then or_else o (some h) else find d table)
find-inserted c d h table none q = find-assign c d h table
find-inserted c d h table (some g) q = elim (Bool-cases (bytes_eq c d)) [
  | inl e ↦ rw (e, if◌then◌else◌, ← (bytes_eq_iff c d).0 e, q)
  | inr e ↦ rw (e, if◌then◌else◌)
]

-- A command that is added under a name that is not empty can be found, unless its name was taken, and
-- no other name is affected.
get_command-add_command :
    (c d : Bytes) (h : Handler) (table : Commands)
    → c ≢ []
    → get_command d (add_command c h table).1
      ≡ (if bytes_eq c d then or_else (get_command c table) (some h) else get_command d table)
unfolding get_command add_command
get_command-add_command [] d h table p = absurd (p refl)
get_command-add_command (b ∷ c) d h table p =
    find-inserted (b ∷ c) d h table (find (b ∷ c) table) refl

find-deleted :
    (c d : Bytes) (table : Commands) (o : Option Handler)
    → find c table ≡ o
    → find d (deleted c table o).1 ≡ (if bytes_eq c d then none else find d table)
find-deleted c d table none q = elim (Bool-cases (bytes_eq c d)) [
  | inl e ↦ rw (e, if◌then◌else◌, ← (bytes_eq_iff c d).0 e, q)
  | inr e ↦ rw (e, if◌then◌else◌)
]
find-deleted c d table (some h) q = find-erase c d table

is_some-deleted :
    (c : Bytes) (table : Commands) (o : Option Handler) → (deleted c table o).0 ≡ is_some o
is_some-deleted c table none = refl
is_some-deleted c table (some h) = refl

-- A command that is deleted is gone, and no other name is affected; the result tells whether it was
-- there.
get_command-del_command :
    (c d : Bytes) (table : Commands)
    → (get_command d (del_command c table).1 ≡ (if bytes_eq c d then none else get_command d table))
      × ((del_command c table).0 ≡ exist_command c table)
unfolding get_command del_command exist_command
get_command-del_command c d table =
    (find-deleted c d table (find c table) refl, is_some-deleted c table (find c table))

-- No name of a list is empty.
abbrev pub AllNamed : Assoc Handler → Type 0
AllNamed [] = Unit
AllNamed (([], h) ∷ l) = ⊥
AllNamed ((b ∷ c, h) ∷ l) = AllNamed l

or_else-none : (o : Option Handler) → or_else o none ≡ o
or_else-none none = refl
or_else-none (some h) = refl

or_else-some :
    (o x : Option Handler) (h : Handler) → or_else (or_else o (some h)) x ≡ or_else o (some h)
or_else-some none x h = refl
or_else-some (some g) x h = refl

or_else-if :
    (c d : Bytes) (h : Handler) (l : Assoc Handler) (table : Commands)
    → or_else (if bytes_eq c d then or_else (find c table) (some h) else find d table) (find d l)
      ≡ or_else (find d table) (if bytes_eq c d then some h else find d l)
or_else-if c d h l table = elim (Bool-cases (bytes_eq c d)) [
  | inl e ↦
      rw (e, if◌then◌else◌, ← (bytes_eq_iff c d).0 e) (or_else-some (find c table) (find c l) h)
  | inr e ↦ rw (e, if◌then◌else◌)
]

-- Where a name is registered more than once, the first time counts; what was there before comes first.
get_command-add_all :
    (d : Bytes) (l : Assoc Handler) (table : Commands)
    → AllNamed l
    → get_command d (add_all l table) ≡ or_else (get_command d table) (find d l)
unfolding get_command add_all find
get_command-add_all d [] table p = sym (or_else-none (find d table))
get_command-add_all d (([], h) ∷ l) table p = absurd p
get_command-add_all d ((b ∷ c, h) ∷ l) table p =
    get_command-add_all d l (add_command (b ∷ c) h table).1 p
    ∙ ap (λ o. or_else o (find d l)) (get_command-add_command (b ∷ c) d h table (λ e. cc))
    ∙ or_else-if (b ∷ c) d h l table

exec_command-run :
    (table : Commands) (c : Bytes) (params : List Bytes) (e : Env)
    → exec_command table (c ∷ params) e ≡ run (c ∷ params) (get_command c table) e
unfolding exec_command
exec_command-run table c params e = refl

module _ (hashing : HashTable) (random : List ℕ) (doubles : Doubles) where
  -- Over the table that `init` fills, the dispatch looks the name up in what is registered.
  pub exec_command-registered :
      (c : Bytes) (params : List Bytes) (e : Env)
      → exec_command (init hashing random doubles []) (c ∷ params) e
        ≡ run (c ∷ params) (find c (registrations hashing random doubles)) e
  unfolding init find get_command
  exec_command-registered c params e =
      exec_command-run (init hashing random doubles []) c params e
      ∙ ap (λ o. run (c ∷ params) o e)
          (get_command-add_all c (registrations hashing random doubles) [] tt)
