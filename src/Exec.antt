-- ===== src/Exec.antt =====
-- The handlers of the commands run over the store and the reply buffer.
use yedis.Prelude.{ℕ, Option, none, some, List, Bytes, get_elem?}
use yedis.Outcome.{Outcome, done, fault, out_of_fuel}
use yedis.Format.{Reply, push_data}
use yedis.Object.{YError}
use yedis.Store.{Store}

pub record Env : Type 0 where
  pub store : Store
  pub reply : Reply

abbrev pub Exec {ℓ} : Type ℓ → Type ℓ
Exec A = Env → Outcome (A × Env)

-- The arguments of a command, and a handler. `none` is a handler that ends without a `return`.
abbrev pub Params : Type 0
Params = List Bytes

abbrev pub Handler : Type 0
Handler = Params → Exec (Option YError)

abbrev pub after : {A B : Type 0} → (A → Exec B) → Outcome (A × Env) → Outcome (B × Env)
after f (done (a, e)) = f a e
after f fault = fault
after f out_of_fuel = out_of_fuel

infixl 5 ◌>>=◌ ◌>>◌
abbrev pub ◌>>=◌ : {A B : Type 0} → Exec A → (A → Exec B) → Exec B
◌>>=◌ m f e = after f (m e)

abbrev pub ◌>>◌ : {B : Type 0} → Exec (Unit {0}) → Exec B → Exec B
m >> k = m >>= λ _. k

abbrev pub pure : {A : Type 0} → A → Exec A
pure a e = done (a, e)

abbrev pub return : YError → Exec (Option YError)
return err = pure (some err)

abbrev pub crash : {A : Type 0} → Exec A
crash e = fault

-- `reply->pushData(bytes)`
abbrev pub push : Bytes → Exec (Unit {0})
push bytes e = done (tt, record e { reply = push_data bytes e.reply })

abbrev pub after_format : Env → ℕ × Option Reply → Outcome (Unit {0} × Env)
after_format e (n, none) = fault
after_format e (n, some r) = done (tt, record e { reply = r })

-- A call of a formatter, whose result the handlers drop.
abbrev pub format : (Option Reply → ℕ × Option Reply) → Exec (Unit {0})
format f e = after_format e (f (some e.reply))

abbrev pub answer : {A : Type 0} → Env → Outcome A → Outcome (A × Env)
answer e (done a) = done (a, e)
answer e fault = fault
answer e out_of_fuel = out_of_fuel

abbrev pub query : {A : Type 0} → (Store → Outcome A) → Exec A
query f e = answer e (f e.store)

abbrev pub replace : Env → Outcome Store → Outcome (Unit {0} × Env)
replace e (done s) = done (tt, record e { store = s })
replace e fault = fault
replace e out_of_fuel = out_of_fuel

abbrev pub update : (Store → Outcome Store) → Exec (Unit {0})
update f e = replace e (f e.store)

abbrev pub changed : {A : Type 0} → Env → Outcome (A × Store) → Outcome (A × Env)
changed e (done (a, s)) = done (a, record e { store = s })
changed e fault = fault
changed e out_of_fuel = out_of_fuel

-- A call that changes the store and returns a value.
abbrev pub change : {A : Type 0} → (Store → Outcome (A × Store)) → Exec A
change f e = changed e (f e.store)

abbrev pub present : Env → Option Bytes → Outcome (Bytes × Env)
present e none = fault
present e (some s) = done (s, e)

-- `params[i]`
abbrev pub param : ℕ → Params → Exec Bytes
param i params e = present e (get_elem? params i)
