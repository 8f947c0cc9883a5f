-- ===== src/Parser/Tests.antt =====
-- Runs of the parser.
use yedis.Prelude.{◌≢◌, All, cr, lf, arith, ◌≡◌, refl, [], ◌∷◌, ◌++◌, codes, crlf, Bytes}
use yedis.Prelude.Int.{pos}
use yedis.Decimal.{print_nat}
use yedis.Decimal.Value.{IsDigit}
use yedis.Outcome.{done, fault, out_of_fuel}
use yedis.Format.{array}
use yedis.Parser.{
  ok, wait, error, fresh, start, parse_request, parse_strlist, parse_param, parse_str, parse_strval,
  parse_strlen, parse_multi, get_int_until_crlf, scan_int,
}
use yedis.Parser.RoundTrip.{between, parse_request-array}
use yedis.Parser.Fuel.{parse_request-ne-out_of_fuel}
use yedis.Parser.Defects.{resume_multi, parse_strval_overflows}

abbrev set_name : Bytes
set_name = array (codes "set" ∷ codes "name" ∷ codes "ypd" ∷ [])

parse_set :
    parse_request fresh (start set_name)
    ≡ done (
      ok,
      record fresh {
        multi = pos 3;
        num_of_param = 3;
        params = codes "set" ∷ codes "name" ∷ codes "ypd" ∷ [];
      },
      start [],
    )
unfolding print_nat parse_request parse_strlist parse_param parse_str parse_strval parse_strlen
    parse_multi get_int_until_crlf scan_int
parse_set = refl

parse_request-array_example :
    parse_request fresh (start (array (codes "get" ∷ codes "" ∷ []) ++ codes "*1"))
    ≡ done (ok, between (pos 2) 2 (codes "get" ∷ codes "" ∷ []), start (codes "*1"))
unfolding print_nat
parse_request-array_example =
    parse_request-array (codes "get" ∷ codes "" ∷ []) (codes "*1") (omega arith)

parse_request-ne-out_of_fuel_example :
    parse_request fresh (start (codes "*2" ++ crlf)) ≢ out_of_fuel
parse_request-ne-out_of_fuel_example =
    parse_request-ne-out_of_fuel fresh (start (codes "*2" ++ crlf))

twelve-IsDigit : All IsDigit (codes "12")
twelve-IsDigit = ground arith

resume_multi_example :
    (parse_request fresh (start (b'*' ∷ (codes "12" ++ cr ∷ [])))
      ≡ done (wait, fresh, start (codes "12" ++ cr ∷ [])))
    × (parse_request fresh (start (codes "12" ++ cr ∷ lf ∷ []))
        ≡ done (error, fresh, start (codes "12" ++ cr ∷ lf ∷ [])))
resume_multi_example = resume_multi (codes "12") (lf ∷ []) twelve-IsDigit (omega arith)

parse_strval_overflows_example :
    parse_strval (record fresh { param_len = pos 2147483646 }) (start (codes "abc")) [] ≡ fault
parse_strval_overflows_example =
    parse_strval_overflows (record fresh { param_len = pos 2147483646 }) (codes "abc") [] 2147483646
      refl (omega arith) (omega arith) (omega arith)
