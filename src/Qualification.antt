-- ===== src/Qualification.antt =====
-- qualification.go: the canonical codes, and the texts that are read as one.
pub mod Canonical
pub mod Idempotent
mod Tests
use leadflow_v3_server.Base.{
  ℕ, String, Option, none, some, Bool, true, false, List, [], ◌∷◌, ◌==◌, any, find, lookup, map,
  codes, upper, codes_eq, equal_fold, replace, collapse, trim_underscores, trim_space,
  if◌then◌else◌,
}

abbrev pub qualification_labels : List (String × String)
qualification_labels =
    ("QUALIFIED", "Qualified")
    ∷ ("QUALIFIED_CHAT", "Qualified - Chat")
    ∷ ("QUALIFIED_CALL", "Qualified - Call")
    ∷ ("PAID", "Paid")
    ∷ ("ORGANIC", "Organic")
    ∷ ("NOT_QUALIFIED", "Not Qualified")
    ∷ ("IRRELEVANT", "Irrelevant")
    ∷ []

abbrev pub assignable_qualification_codes : List String
assignable_qualification_codes =
    "QUALIFIED" ∷ "QUALIFIED_CHAT" ∷ "QUALIFIED_CALL" ∷ "PAID" ∷ "ORGANIC" ∷ []

abbrev pub allowed_qualifications : List String
allowed_qualifications =
    "QUALIFIED" ∷ "QUALIFIED_CHAT" ∷ "QUALIFIED_CALL" ∷ "PAID" ∷ "ORGANIC" ∷ "NOT_QUALIFIED"
    ∷ "IRRELEVANT" ∷ []

unfoldable pub is_listed : String → List String → Bool
is_listed s codes = any (λ c. c == s) codes

-- The upper-case key with underscores for blanks and dashes, no two together and none at an end.
unfoldable pub qualification_key : List ℕ → List ℕ
unfolding upper replace collapse trim_underscores
qualification_key s =
    trim_underscores (collapse (replace b' ' b'_' (replace b'-' b'_' (map upper s))))

-- `if _, ok := allowedQualifications[key]; ok { return key }`
unfoldable pub code_of_key : List ℕ → Option String
unfolding codes_eq
code_of_key key = find (λ c. codes_eq (codes c) key) allowed_qualifications

-- The loop over the labels, in the order of the list: Go's order is random, the labels differ.
unfoldable pub code_of_label : String → List (String × String) → Option String
unfolding equal_fold trim_space
code_of_label s [] = none
code_of_label s ((code, label) ∷ rest) =
    if equal_fold (trim_space label) s then some code else code_of_label s rest

abbrev pub some_or : Option String → String → String
some_or none s = s
some_or (some c) s = c

abbrev pub first_some : Option String → Option String → Option String
first_some none o = o
first_some (some c) o = some c

unfoldable pub normalize_trimmed : String → String
unfolding is_listed qualification_key code_of_key code_of_label
normalize_trimmed s =
    if s == ""
    then ""
    else if is_listed s allowed_qualifications
    then s
    else some_or
        (first_some (code_of_key (qualification_key (codes s)))
          (code_of_label s qualification_labels))
        s

unfoldable pub normalize_qualification : String → String
unfolding normalize_trimmed trim_space
normalize_qualification status = normalize_trimmed (trim_space status)

unfoldable pub canonicalize_qualification : String → String × Bool
unfolding normalize_qualification is_listed
canonicalize_qualification status = (
  normalize_qualification status,
  is_listed (normalize_qualification status) allowed_qualifications,
)

unfoldable pub is_assignable_qualification : String → Bool
unfolding normalize_qualification is_listed
is_assignable_qualification status =
    is_listed (normalize_qualification status) assignable_qualification_codes

unfoldable pub is_allowed_qualification : String → Bool
unfolding canonicalize_qualification
is_allowed_qualification status = (canonicalize_qualification status).1
