-- ===== src/Typed/Rules.antt =====
-- The computations of the handlers, and what they leave in the store.
use yedis.Prelude.{ℕ, Bool, true, Option, none, some, Bytes, get_elem?}
use yedis.Outcome.{Outcome, done, fault, out_of_fuel}
use yedis.Object.{YType, YError, YObject}
use yedis.Store
use yedis.Store.{Store, Lookup}
use yedis.Format.{Reply}
use yedis.Exec.{
  Env, Params, Exec, after, ◌>>=◌, ◌>>◌, pure, return, crash, push, after_format, format, answer,
  query, replace, update, changed, change, present, param,
}
use yedis.Typed.{
  IsTyped, Typed, OptionAll, OutcomeAll, LookupAll, get_object-All, get_value_by_type-All,
  set_value-All, update_object-All, delete_key-All,
}

-- What a computation comes to: its result has the property, and the store it leaves is right.
abbrev pub Sound : {A : Type 0} → (A → Type 0) → Outcome (A × Env) → Type 0
Sound Q (done (a, e)) = Q a × Typed e.store
Sound Q fault = Unit
Sound Q out_of_fuel = Unit

abbrev pub Keeps : {A : Type 0} → (A → Type 0) → Exec A → Type 0
Keeps Q m = (e : Env) → Typed e.store → Sound Q (m e)

abbrev pub Any : {A : Type 0} → A → Type 0
Any a = Unit

module _ {A : Type 0} (Q : A → Type 0) where
  after-Sound :
      {B : Type 0} (R : B → Type 0) (o : Outcome (A × Env)) (f : A → Exec B)
      → Sound Q o
      → ((a : A) → Q a → Keeps R (f a))
      → Sound R (after f o)
  after-Sound R (done (a, e)) f h k = k a h.0 e h.1
  after-Sound R fault f h k = tt
  after-Sound R out_of_fuel f h k = tt

  pub bind-Keeps :
      {B : Type 0} (R : B → Type 0) (m : Exec A) (f : A → Exec B)
      → Keeps Q m
      → ((a : A) → Q a → Keeps R (f a))
      → Keeps R (m >>= f)
  bind-Keeps R m f h k e v = after-Sound R (m e) f (h e v) k

  pub pure-Keeps : (a : A) → Q a → Keeps Q (pure a)
  pure-Keeps a q e v = (q, v)

  pub crash-Keeps : Keeps Q crash
  crash-Keeps e v = tt

  answer-Sound : (e : Env) (o : Outcome A) → Typed e.store → OutcomeAll Q o → Sound Q (answer e o)
  answer-Sound e (done a) v q = (q, v)
  answer-Sound e fault v q = tt
  answer-Sound e out_of_fuel v q = tt

  query-Keeps :
      (f : Store → Outcome A) → ((s : Store) → Typed s → OutcomeAll Q (f s)) → Keeps Q (query f)
  query-Keeps f h e v = answer-Sound e (f e.store) v (h e.store v)

pub push-Keeps : (bytes : Bytes) → Keeps Any (push bytes)
push-Keeps bytes e v = (tt, v)

formatted-Sound : (e : Env) (r : ℕ × Option Reply) → Typed e.store → Sound Any (after_format e r)
formatted-Sound e (n, none) v = tt
formatted-Sound e (n, some r) v = (tt, v)

pub format-Keeps : (f : Option Reply → ℕ × Option Reply) → Keeps Any (format f)
format-Keeps f e v = formatted-Sound e (f (some e.reply)) v

present-Sound : (e : Env) (o : Option Bytes) → Typed e.store → Sound Any (present e o)
present-Sound e none v = tt
present-Sound e (some s) v = (tt, v)

pub param-Keeps : (i : ℕ) (params : Params) → Keeps Any (param i params)
param-Keeps i params e v = present-Sound e (get_elem? params i) v

replace-Sound : (e : Env) (o : Outcome Store) → OutcomeAll Typed o → Sound Any (replace e o)
replace-Sound e (done s) h = (tt, h)
replace-Sound e fault h = tt
replace-Sound e out_of_fuel h = tt

update-Keeps :
    (f : Store → Outcome Store)
    → ((s : Store) → Typed s → OutcomeAll Typed (f s))
    → Keeps Any (update f)
update-Keeps f h e v = replace-Sound e (f e.store) (h e.store v)

changed-Sound :
    {A : Type 0} (e : Env) (o : Outcome (A × Store))
    → OutcomeAll (λ r. Typed r.1) o
    → Sound Any (changed e o)
changed-Sound e (done (a, s)) h = (tt, h)
changed-Sound e fault h = tt
changed-Sound e out_of_fuel h = tt

pub delete_key-Keeps : (k : Bytes) → Keeps Any (change (Store.delete_key k))
delete_key-Keeps k e v = changed-Sound e (Store.delete_key k e.store) (delete_key-All e.store v k)

pub set_value-Keeps :
    (k : Bytes) (o : YObject) → IsTyped o → Keeps Any (update (Store.set_value k o))
set_value-Keeps k o typed = update-Keeps (Store.set_value k o) (λ s v. set_value-All s v k o typed)

pub update_object-Keeps :
    (k : Bytes) (o : YObject) → IsTyped o → Keeps Any (update (Store.update_object k o))
update_object-Keeps k o typed =
    update-Keeps (Store.update_object k o) (λ s v. update_object-All s v k o typed)

pub get_object-Keeps : (k : Bytes) → Keeps (OptionAll IsTyped) (query (Store.get_object k))
get_object-Keeps k =
    query-Keeps (OptionAll IsTyped) (Store.get_object k) (λ s v. get_object-All s v k)

pub get_value_by_type-Keeps :
    (k : Bytes) (t : YType) (touch : Bool)
    → Keeps LookupAll (query (Store.get_value_by_type k t touch))
get_value_by_type-Keeps k t touch =
    query-Keeps LookupAll (Store.get_value_by_type k t touch)
      (λ s v. get_value_by_type-All s v k t touch)

-- A handler's last steps.
pub push-return : (bytes : Bytes) (err : YError) → Keeps Any (push bytes >> return err)
push-return bytes err =
    bind-Keeps Any Any (push bytes) (λ _. return err) (push-Keeps bytes)
      (λ _ _. pure-Keeps Any (some err) tt)

pub format-return :
    (f : Option Reply → ℕ × Option Reply) (err : YError) → Keeps Any (format f >> return err)
format-return f err =
    bind-Keeps Any Any (format f) (λ _. return err) (format-Keeps f)
      (λ _ _. pure-Keeps Any (some err) tt)

-- The first parameter, and what follows.
pub param-then :
    {B : Type 0} (R : B → Type 0) (i : ℕ) (params : Params) (f : Bytes → Exec B)
    → ((s : Bytes) → Keeps R (f s))
    → Keeps R (param i params >>= f)
param-then R i params f h = bind-Keeps Any R (param i params) f (param-Keeps i params) (λ s _. h s)

pub then-Keeps :
    {A B : Type 0} (R : B → Type 0) (m : Exec A) (f : A → Exec B)
    → Keeps Any m
    → ((a : A) → Keeps R (f a))
    → Keeps R (m >>= f)
then-Keeps R m f h k = bind-Keeps Any R m f h (λ a _. k a)

pub lookup-then :
    {B : Type 0} (R : B → Type 0) (k : Bytes) (t : YType) (f : Lookup → Exec B)
    → ((l : Lookup) → LookupAll l → Keeps R (f l))
    → Keeps R (query (Store.get_value_by_type k t true) >>= f)
lookup-then R k t f h =
    bind-Keeps LookupAll R (query (Store.get_value_by_type k t true)) f
      (get_value_by_type-Keeps k t true) h

Any-OutcomeAll : {A : Type 0} (o : Outcome A) → OutcomeAll Any o
Any-OutcomeAll (done a) = tt
Any-OutcomeAll fault = tt
Any-OutcomeAll out_of_fuel = tt

-- What only looks at the store.
pub query-then :
    {A B : Type 0} (R : B → Type 0) (f : Store → Outcome A) (g : A → Exec B)
    → ((a : A) → Keeps R (g a))
    → Keeps R (query f >>= g)
query-then R f g h = then-Keeps R (query f) g (query-Keeps Any f (λ s v. Any-OutcomeAll (f s))) h

-- One step and the next.
pub seq-Keeps :
    {B : Type 0} (R : B → Type 0) (m : Exec (Unit {0})) (k : Exec B)
    → Keeps Any m
    → Keeps R k
    → Keeps R (m >> k)
seq-Keeps R m k h h' = then-Keeps R m (λ _. k) h (λ _. h')

pub push-then :
    {B : Type 0} (R : B → Type 0) (bytes : Bytes) (k : Exec B)
    → Keeps R k
    → Keeps R (push bytes >> k)
push-then R bytes k h = seq-Keeps R (push bytes) k (push-Keeps bytes) h

pub format-then :
    {B : Type 0} (R : B → Type 0) (f : Option Reply → ℕ × Option Reply) (k : Exec B)
    → Keeps R k
    → Keeps R (format f >> k)
format-then R f k h = seq-Keeps R (format f) k (format-Keeps f) h

abbrev pub Handles : Exec (Option YError) → Type 0
Handles m = Keeps (Any {A = Option YError}) m
