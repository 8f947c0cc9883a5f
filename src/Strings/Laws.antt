-- ===== src/Strings/Laws.antt =====
-- What a client sees of SET, GET and SETNX.
use mathlib.Core.List.{append_assoc}
use yedis.Prelude.{
  ℕ, suc, zero, ◌<◌, ◌≡◌, ◌≢◌, refl, sym, subst, ap, ◌∙◌, true, Option, none, some, List, ◌∷◌, ◌++◌,
  Bytes, codes, crlf, if◌then◌else◌, arith, bytes_eq_refl,
}
use yedis.Prelude.Int.{ℤ, pos, negsuc}
use yedis.Decimal.{print_int}
use yedis.Decimal.Value.{Head, print_nat-Head}
use yedis.Strtol.{string_to_long}
use yedis.Strtol.Print.{IsLong, string_to_long-print_int}
use yedis.Outcome.{done}
use yedis.Format.{bulk}
use yedis.Object.{YType, YError, YObject, string_object, new_object, create_string, move_from}
use yedis.Store.{Store, stored, check_type}
use yedis.Store.Laws.{
  IsReady, view, view-with_object, with_object, set_value-IsReady, get_value-IsReady,
  get_value_by_type-IsReady, put_current-IsReady,
}
use yedis.Exec.{Env, ◌>>=◌}
use yedis.Strings.{set_cmd, get_cmd, setnx_cmd, reply_value, get_decode_string}

-- The text that is read back when `v` was written.
abbrev pub recode : Bytes → Option ℤ → Bytes
recode v none = v
recode v (some z) = print_int z

abbrev pub recoded : Bytes → Bytes
recoded v = recode v (string_to_long v)

-- The object that a SET leaves at its key.
abbrev pub new_string : Store → Bytes → Bytes → YObject
new_string s k v = stored s.lruclock (view s k) (create_string v)

abbrev pub after_set : Store → Bytes → Bytes → Store
after_set s k v = with_object k (new_string s k v) s

set_cmd_lem :
    (e : Env) (c k v : Bytes) (rest : List Bytes)
    → IsReady e.store
    → set_cmd (c ∷ k ∷ v ∷ rest) e
      ≡ done (
        some YError.ok,
        record { store = after_set e.store k v; reply = e.reply ++ (codes "+OK" ++ crlf) },
      )
unfolding set_cmd
set_cmd_lem e c k v rest h = rw (set_value-IsReady e.store h k (create_string v))

reply_value-string :
    (e : Env) (v : Bytes) (old : Option YObject) (z : Option ℤ)
    → reply_value
        (check_type YType.string (some (stored e.store.lruclock old (string_object v z))))
        e
      ≡ done (some YError.ok, record e { reply = e.reply ++ bulk (recode v z) })
unfolding get_decode_string move_from new_object
reply_value-string e v old none = simp append_assoc
reply_value-string e v old (some z) = simp append_assoc

get_cmd-string :
    (e : Env) (c k v : Bytes) (rest : List Bytes) (old : Option YObject)
    → IsReady e.store
    → view e.store k ≡ some (stored e.store.lruclock old (create_string v))
    → get_cmd (c ∷ k ∷ rest) e
      ≡ done (some YError.ok, record e { reply = e.reply ++ bulk (recoded v) })
unfolding get_cmd create_string
get_cmd-string e c k v rest old h q =
    rw (get_value_by_type-IsReady e.store h k YType.string true, q)
      (reply_value-string e v old (string_to_long v))

view-after_set :
    (s : Store) (k v : Bytes) → IsReady s → view (after_set s k v) k ≡ some (new_string s k v)
view-after_set s k v h =
    view-with_object s h k k (new_string s k v)
    ∙ ap (λ b. if b then some (new_string s k v) else view s k) (bytes_eq_refl k)

-- SET answers OK and is followed by a GET of the key that answers with the text as it is recoded.
-- The selected key space is there (`IsReady`).
pub get_cmd-set_cmd :
    (e : Env) (c d k v : Bytes) (rest more : List Bytes)
    → IsReady e.store
    → (set_cmd (c ∷ k ∷ v ∷ rest) >>= λ _. get_cmd (d ∷ k ∷ more)) e
      ≡ done (
        some YError.ok,
        record {
          store = after_set e.store k v;
          reply = (e.reply ++ (codes "+OK" ++ crlf)) ++ bulk (recoded v);
        },
      )
get_cmd-set_cmd e c d k v rest more h = rw (set_cmd_lem e c k v rest h) (
    get_cmd-string
      (record { store = after_set e.store k v; reply = e.reply ++ (codes "+OK" ++ crlf) }) d k v
      more (view e.store k) (put_current-IsReady e.store h _) (view-after_set e.store k v h))

-- A text that is the decimal print of a `long` is not changed.
recoded-print_int : (z : ℤ) → IsLong z → recoded (print_int z) ≡ print_int z
recoded-print_int z h = ap (recode (print_int z)) (string_to_long-print_int z h)

print_int-ne-zero_first : (z : ℤ) (c : ℕ) (s : Bytes) → print_int z ≢ b'0' ∷ c ∷ s
unfolding print_int
print_int-ne-zero_first (pos zero) c s e = cc
print_int-ne-zero_first (pos (suc n)) c s e =
    let big : b'0' < b'0' = subst (Head (λ b. b'0' < b)) e (print_nat-Head (suc n) (omega arith)) in
    absurd (omega arith)
print_int-ne-zero_first (negsuc n) c s e = ground arith

-- A text of two bytes or more that begins with `0` and that `strtol` takes for a number, octal or
-- hexadecimal, is not what a GET returns after it was SET.
recoded-ne-leading_zero :
    (c : ℕ) (s : Bytes) (z : ℤ)
    → string_to_long (b'0' ∷ c ∷ s) ≡ some z
    → recoded (b'0' ∷ c ∷ s) ≢ b'0' ∷ c ∷ s
recoded-ne-leading_zero c s z h e =
    print_int-ne-zero_first z c s (sym (ap (recode (b'0' ∷ c ∷ s)) h) ∙ e)

abbrev pub setnx_result : Env → Bytes → Bytes → Option YObject → Option YError × Env
setnx_result e k v none = (
  some YError.ok,
  record { store = after_set e.store k v; reply = e.reply ++ (codes ":1" ++ crlf) },
)
setnx_result e k v (some o) = (some YError.ok, record e { reply = e.reply ++ (codes ":0" ++ crlf) })

setnx_cmd-found :
    (e : Env) (c k v : Bytes) (rest : List Bytes) (o : Option YObject)
    → IsReady e.store
    → view e.store k ≡ o
    → setnx_cmd (c ∷ k ∷ v ∷ rest) e ≡ done (setnx_result e k v o)
unfolding setnx_cmd
setnx_cmd-found e c k v rest none h q =
    rw (get_value-IsReady e.store h k, q, set_value-IsReady e.store h k (create_string v), q)
setnx_cmd-found e c k v rest (some o) h q = rw (get_value-IsReady e.store h k, q)

-- SETNX writes if the key has no value, of whatever type, and answers 1; otherwise it answers 0 and
-- leaves the store as it is.
-- The selected key space is there (`IsReady`).
pub setnx_cmd-first_wins :
    (e : Env) (c k v : Bytes) (rest : List Bytes)
    → IsReady e.store
    → setnx_cmd (c ∷ k ∷ v ∷ rest) e ≡ done (setnx_result e k v (view e.store k))
setnx_cmd-first_wins e c k v rest h = setnx_cmd-found e c k v rest (view e.store k) h refl
