-- ===== src/Strings/Get.antt =====
-- What GET answers (src/YString.cpp), in a store whose type tags agree with the values.
use mathlib.Core.List.{append_assoc}
use yedis.Prelude.{
  ◌≡◌, refl, sym, subst, ap, ◌∙◌, true, Option, none, some, List, [], ◌∷◌, ◌++◌, Bytes, codes, crlf,
  if◌then◌else◌, Bool-cases, inl, inr,
}
use yedis.Decimal.{print_int}
use yedis.Outcome.{done}
use yedis.Format.{bulk}
use yedis.Object.{YType, YEncode, YError, Value, YObject}
use yedis.Store.{Lookup, check_type, type_eq}
use yedis.Store.Laws.{IsReady, view, get_object-IsReady, get_value_by_type-IsReady}
use yedis.Typed.{kind, fits, IsTyped, Typed, OptionAll, OutcomeAll, get_object-All}
use yedis.Exec.{Env, pure}
use yedis.Strings.{get_cmd, get_decode_string, decode, reply_value}

-- The text that a value stands for.
abbrev pub text : Value → Bytes
text (Value.raw s) = s
text (Value.long z) = print_int z
text _ = []

-- What a client is sent, by the object at the key: null, a bulk string, or an error.
abbrev pub get_text : Option YObject → Bytes
get_text none = codes "$-1" ++ crlf
get_text (some o) =
    if type_eq YType.string o.type then bulk (text o.value) else codes "-ERR no such key" ++ crlf

abbrev pub get_error : Option YObject → YError
get_error none = YError.not_exist
get_error (some o) = if type_eq YType.string o.type then YError.ok else YError.type

fits-decode :
    (enc : YEncode) (v : Value)
    → fits YType.string enc (kind v) ≡ true
    → decode enc v ≡ pure (text v)
fits-decode YEncode.invalid v h = absurd (cc h)
fits-decode YEncode.raw Value.null h = absurd (cc h)
fits-decode YEncode.raw (Value.raw s) h = refl
fits-decode YEncode.raw (Value.long z) h = absurd (cc h)
fits-decode YEncode.raw (Value.list l) h = absurd (cc h)
fits-decode YEncode.raw (Value.set l) h = absurd (cc h)
fits-decode YEncode.raw (Value.hash m) h = absurd (cc h)
fits-decode YEncode.raw (Value.sset ss) h = absurd (cc h)
fits-decode YEncode.int Value.null h = absurd (cc h)
fits-decode YEncode.int (Value.raw s) h = absurd (cc h)
fits-decode YEncode.int (Value.long z) h = refl
fits-decode YEncode.int (Value.list l) h = absurd (cc h)
fits-decode YEncode.int (Value.set l) h = absurd (cc h)
fits-decode YEncode.int (Value.hash m) h = absurd (cc h)
fits-decode YEncode.int (Value.sset ss) h = absurd (cc h)
fits-decode YEncode.list v h = absurd (cc h)
fits-decode YEncode.set v h = absurd (cc h)
fits-decode YEncode.hash v h = absurd (cc h)
fits-decode YEncode.sset v h = absurd (cc h)

string_type : (t : YType) → type_eq YType.string t ≡ true → t ≡ YType.string
string_type YType.string h = refl
string_type YType.invalid h = absurd (cc h)
string_type YType.list h = absurd (cc h)
string_type YType.set h = absurd (cc h)
string_type YType.sorted_set h = absurd (cc h)
string_type YType.hash h = absurd (cc h)

reply_value-typed :
    (o : YObject) (e : Env)
    → o.type ≡ YType.string
    → IsTyped o
    → reply_value (Lookup.ok o) e
      ≡ done (some YError.ok, record e { reply = e.reply ++ bulk (text o.value) })
unfolding get_decode_string
reply_value-typed o e t h =
    let same =
      fits-decode o.encoding o.value (ap (λ t. fits t o.encoding (kind o.value)) (sym t) ∙ h) in
    rw same (simp append_assoc)

reply_value_answers :
    (o : Option YObject) (e : Env)
    → OptionAll IsTyped o
    → reply_value (check_type YType.string o) e
      ≡ done (some (get_error o), record e { reply = e.reply ++ get_text o })
reply_value_answers none e h = refl
reply_value_answers (some o) e h = elim (Bool-cases (type_eq YType.string o.type)) [
  | inl t ↦ rw (t, check_type) (reply_value-typed o e (string_type o.type t) h)
  | inr t ↦ rw (t, check_type)
]

view-IsTyped :
    (e : Env) (k : Bytes) → IsReady e.store → Typed e.store → OptionAll IsTyped (view e.store k)
view-IsTyped e k h typed =
    subst (OutcomeAll (OptionAll IsTyped)) (get_object-IsReady e.store h k)
      (get_object-All e.store typed k)

-- GET, in a store where every type tag agrees with its value and the selected key space is there
-- (`IsReady`), never fails and leaves the store as it is: for a key without an object it sends null, for
-- a text or a number the bulk string of its characters, and for an object of another type an error.
pub get_cmd_answers :
    (e : Env) (c k : Bytes) (rest : List Bytes)
    → IsReady e.store
    → Typed e.store
    → get_cmd (c ∷ k ∷ rest) e
      ≡ done (
        some (get_error (view e.store k)),
        record e { reply = e.reply ++ get_text (view e.store k) },
      )
unfolding get_cmd
get_cmd_answers e c k rest h typed =
    rw (get_value_by_type-IsReady e.store h k YType.string true)
      (reply_value_answers (view e.store k) e (view-IsTyped e k h typed))
