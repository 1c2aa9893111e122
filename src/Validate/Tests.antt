-- ===== src/Validate/Tests.antt =====
-- validate.go: a number and two passwords.
use leadflow_v3_server.Base.{not, [], ◌≡◌, refl, codes, length, some, arith}
use leadflow_v3_server.Base.ℤ.{negsuc}
use leadflow_v3_server.Validate.{itoa, write_digits, require_password, require_string, has_errors}
use leadflow_v3_server.Validate.Decimal.{IsDecimalOf, itoa-read_int}
use leadflow_v3_server.Validate.Passwords.{is_password, require_password-has_errors}

itoa-read_int_example : IsDecimalOf (negsuc 304) (itoa (negsuc 304))
itoa-read_int_example = itoa-read_int (negsuc 304) (omega arith)

written : itoa (negsuc 304) ≡ some (codes "-305")
unfolding itoa write_digits
written = refl

require_password-has_errors_example :
    ((require_password [] "password" "letters only").value ≡ "letters only")
    × (has_errors (require_password [] "password" "letters only").errors
        ≡ not (is_password "letters only"))
require_password-has_errors_example = require_password-has_errors "password" "letters only"

refused : length (require_password [] "password" "letters only").errors ≡ 1
unfolding require_password
refused = refl

two : length (require_string [] "name" " ab " 3 1).errors ≡ 2
unfolding require_string
two = refl
