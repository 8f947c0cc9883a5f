-- ===== src/Strtol/Tests.antt =====
-- Texts that `stringToLong` reads and refuses.
use yedis.Prelude.{◌≡◌, refl, none, some, codes, arith}
use yedis.Prelude.Int.{pos, negsuc, neg}
use yedis.Decimal.{print_int}
use yedis.Strtol.{skip_spaces, span_digits, detect_base, convert, signed, strtol, string_to_long}
use yedis.Strtol.Print.{string_to_long-print_int}

reads_decimal : string_to_long (codes "-120") ≡ some (neg 120)
unfolding string_to_long strtol skip_spaces span_digits detect_base convert signed
reads_decimal = refl

reads_octal : string_to_long (codes "010") ≡ some (pos 8)
unfolding string_to_long strtol skip_spaces span_digits detect_base convert signed
reads_octal = refl

reads_hexadecimal : string_to_long (codes " +0x1F") ≡ some (pos 31)
unfolding string_to_long strtol skip_spaces span_digits detect_base convert signed
reads_hexadecimal = refl

refuses :
    (string_to_long (codes "12a") ≡ none) × (string_to_long (codes "9223372036854775808") ≡ none)
unfolding string_to_long strtol skip_spaces span_digits detect_base convert signed
refuses = (refl, refl)

string_to_long-print_int_example : string_to_long (print_int (negsuc 119)) ≡ some (negsuc 119)
string_to_long-print_int_example = string_to_long-print_int (negsuc 119) (omega arith)
