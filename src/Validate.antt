-- ===== src/Validate.antt =====
-- validate.go: the checks of the fields of a request, with the errors that they add, and `itoa`. `lower` stands
-- for strings.ToLower and `is_email` for the match of `emailPattern`. A text that is added to the list of
-- errors is kept as its code points; the decoding of JSON is left out.
pub mod Decimal
pub mod Passwords
mod Tests
use leadflow_v3_server.Base.{
  ℕ, zero, suc, ◌+◌, ◌/◌, ◌%◌, String, Bool, true, false, not, ◌&&◌, ◌||◌, List, [], ◌∷◌, ◌++◌,
  ◌==◌, any, keep, length, codes, leb, ltb, eqb, ℤ, pos, negsuc, trim_space, Option, none, some,
  if◌then◌else◌,
}
use leadflow_v3_server.Roles.{is_valid_role}

pub record FieldError : Type 0 where
  pub field : List ℕ
  pub message : List ℕ

-- `v.Errors` after a check, and what the check returns.
pub record Checked {ℓ} (A : Type ℓ) : Type ℓ where
  pub errors : List FieldError
  pub value : A

abbrev pub add : String → List ℕ → List FieldError → List FieldError
add field message errors = errors ++ record { field = codes field; message = message } ∷ []

abbrev pub has_errors : List FieldError → Bool
has_errors [] = false
has_errors (e ∷ errors) = true

-- The loop of `itoa`: `room` is the index into the twelve bytes, past which it panics.
unfoldable pub write_digits : ℕ → ℕ → List ℕ → Option (ℕ × List ℕ)
write_digits zero n b = if eqb n 0 then some (zero, b) else none
write_digits (suc room) n b =
    let rest = write_digits room (n / 10) ((b'0' + n % 10) ∷ b) in
    if eqb n 0 then some (suc room, b) else rest

abbrev pub write_sign : Option (ℕ × List ℕ) → Option (List ℕ)
write_sign none = none
write_sign (some (zero, b)) = none
write_sign (some (suc room, b)) = some (b'-' ∷ b)

abbrev pub without_sign : Option (ℕ × List ℕ) → Option (List ℕ)
without_sign none = none
without_sign (some (room, b)) = some b

unfoldable pub itoa : ℤ → Option (List ℕ)
unfolding write_digits
itoa (pos zero) = some (codes "0")
itoa (pos (suc n)) = without_sign (write_digits 12 (suc n) [])
itoa (negsuc n) = write_sign (write_digits 12 (suc n) [])

-- A bound is a literal of the code, so `itoa` does not panic on it.
abbrev pub or_empty : Option (List ℕ) → List ℕ
or_empty none = []
or_empty (some b) = b

abbrev pub bound_message : String → String → ℕ → List ℕ
bound_message field words bound =
    codes field ++ (codes words ++ (or_empty (itoa (pos bound)) ++ codes " characters"))

abbrev pub above : ℕ → ℕ → Bool
above max n = ltb 0 max && ltb max n

unfoldable pub require_string : List FieldError → String → String → ℕ → ℕ → Checked String
unfolding trim_space itoa
require_string v field value min max =
    let s = trim_space value in
    let n = length (codes s) in
    if s == ""
    then record { errors = add field (codes field ++ codes " is required") v; value = s }
    else let low =
        if ltb n min then add field (bound_message field " must be at least " min) v else v in
      record {
        errors =
            if above max n
            then add field (bound_message field " must be at most " max) low
            else low;
        value = s;
      }

unfoldable pub optional_bounded_string : List FieldError → String → String → ℕ → Checked String
unfolding trim_space itoa
optional_bounded_string v field value max =
    let s = trim_space value in
    record {
      errors =
          if s == ""
          then v
          else if above max (length (codes s))
          then add field (bound_message field " must be at most " max) v
          else v;
      value = s;
    }

abbrev pub is_decimal : ℕ → Bool
is_decimal c = leb b'0' c && leb c b'9'

abbrev pub is_letter : ℕ → Bool
is_letter c = (leb b'a' c && leb c b'z') || (leb b'A' c && leb c b'Z')

unfoldable pub optional_phone : List FieldError → String → String → Checked (Option String)
unfolding trim_space
optional_phone v field value =
    let s = trim_space value in
    if s == "" then record { errors = v; value = none } else record {
      errors =
          if ltb (length (keep is_decimal (codes s))) 5
          then add field (codes "phone must include at least 5 digits") v
          else v;
      value = some s;
    }

unfoldable pub require_password : List FieldError → String → String → Checked String
unfolding trim_space
require_password v field value =
    let cs = codes value in
    let n = length cs in
    if trim_space value == ""
    then record { errors = add field (codes "password is required") v; value = value }
    else let short =
        if ltb n 8 then add field (codes "password must be at least 8 characters") v else v in
      let long =
        if ltb 128 n
        then add field (codes "password must be at most 128 characters") short
        else short in
      record {
        errors =
            if leb 8 n && (not (any is_letter cs) || not (any is_decimal cs))
            then add field (codes "password must include at least one letter and one number") long
            else long;
        value = value;
      }

unfoldable pub require_role : List FieldError → String → String → Checked String
unfolding trim_space is_valid_role
require_role v field value =
    let s = trim_space value in
    record {
      errors =
          if s == ""
          then add field (codes "role is required") v
          else if not (is_valid_role s)
          then add field (codes "role is invalid") v
          else v;
      value = s;
    }

module _ (lower : String → String) (is_email : String → Bool) where
  unfoldable pub optional_email : List FieldError → String → String → Checked (Option String)
  unfolding trim_space
  optional_email v field value =
      let s = trim_space (lower value) in
      if s == "" then record { errors = v; value = none } else record {
        errors = if is_email s then v else add field (codes "email format is invalid") v;
        value = some s;
      }

  unfoldable pub require_email : List FieldError → String → String → Checked String
  unfolding trim_space
  require_email v field value =
      let s = trim_space (lower value) in
      record {
        errors =
            if s == ""
            then add field (codes "email is required") v
            else if is_email s
            then v
            else add field (codes "email format is invalid") v;
        value = s;
      }
