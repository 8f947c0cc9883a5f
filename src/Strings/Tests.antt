-- ===== src/Strings/Tests.antt =====
-- Runs of SET, GET and SETNX.
use yedis.Prelude.{◌≡◌, refl, some, [], ◌∷◌, ◌++◌, codes, crlf, arith}
use yedis.Prelude.Int.{pos}
use yedis.Strtol.{skip_spaces, span_digits, detect_base, convert, signed, strtol, string_to_long}
use yedis.Outcome.{done}
use yedis.Format.{bulk}
use yedis.Object.{YType, YEncode, YError, Value, YObject}
use yedis.Store.Laws.{view}
use yedis.Exec.{◌>>=◌}
use yedis.Samples.{key, one, empty_env, env_with, list_object}
use yedis.Strings.{set_cmd, get_cmd, setnx_cmd}
use yedis.Strings.Laws.{recoded, after_set, get_cmd-set_cmd, setnx_result, setnx_cmd-first_wins}
use yedis.Strings.Get.{get_text, get_error, get_cmd_answers}

reads_octal_ten : string_to_long (codes "010") ≡ some (pos 8)
unfolding string_to_long strtol skip_spaces span_digits detect_base convert signed
reads_octal_ten = refl

get_cmd-set_cmd_example :
    (set_cmd (codes "set" ∷ key ∷ one ∷ []) >>= λ _. get_cmd (codes "get" ∷ key ∷ [])) empty_env
    ≡ done (
      some YError.ok,
      record {
        store = after_set empty_env.store key one;
        reply = ([] ++ (codes "+OK" ++ crlf)) ++ bulk (recoded one);
      },
    )
get_cmd-set_cmd_example =
    get_cmd-set_cmd empty_env (codes "set") (codes "get") key one [] [] (omega arith)

setnx_cmd-first_wins_example :
    setnx_cmd (codes "setnx" ∷ key ∷ one ∷ []) (env_with (list_object []))
    ≡ done (
        setnx_result
          (env_with (list_object []))
          key
          one
          (view (env_with (list_object [])).store key))
setnx_cmd-first_wins_example =
    setnx_cmd-first_wins (env_with (list_object [])) (codes "setnx") key one [] (omega arith)

abbrev number_object : YObject
number_object = record {
  type = YType.string;
  encoding = YEncode.int;
  lru = 0;
  value = Value.long (pos 12);
}

get_cmd_answers_example :
    get_cmd (codes "get" ∷ key ∷ []) (env_with number_object)
    ≡ done (
      some (get_error (view (env_with number_object).store key)),
      record (env_with number_object) {
        reply = [] ++ get_text (view (env_with number_object).store key);
      },
    )
get_cmd_answers_example =
    get_cmd_answers (env_with number_object) (codes "get") key [] (omega arith) ((refl, tt), tt)
