-- ===== src/Leads/Conditions/Patterns.antt =====
-- leads.go, `escapeILIKE` and `digitsOnly`, and the patterns that are made of them.
use leadflow_v3_server.Base.{
  ℕ, Bool, true, false, ◌||◌, ◌&&◌, List, [], ◌∷◌, ◌++◌, keep, leb, eqb, is_nil, if◌then◌else◌,
}
use leadflow_v3_server.Leads.Conditions.Parts.{Arg, str}

-- strings.ReplaceAll of one character by the same behind a backslash.
unfoldable pub escape_char : ℕ → List ℕ → List ℕ
escape_char c [] = []
escape_char c (x ∷ xs) =
    let rest = escape_char c xs in if eqb x c then b'\\' ∷ x ∷ rest else x ∷ rest

unfoldable pub escape_ilike : List ℕ → List ℕ
unfolding escape_char
escape_ilike s = escape_char b'_' (escape_char b'%' (escape_char b'\\' s))

abbrev pub is_digit : ℕ → Bool
is_digit c = leb b'0' c && leb c b'9'

unfoldable pub digits_only : List ℕ → List ℕ
digits_only s = keep is_digit s

-- `"%" + s + "%"`
abbrev pub anywhere : List ℕ → List ℕ
anywhere s = b'%' ∷ (s ++ b'%' ∷ [])

abbrev pub pattern_arg : List ℕ → Arg
pattern_arg q = str (anywhere (escape_ilike q))

-- strings.Contains
abbrev pub starts : List ℕ → List ℕ → Bool
starts [] s = true
starts (x ∷ xs) [] = false
starts (x ∷ xs) (y ∷ ys) = eqb x y && starts xs ys

abbrev pub contains : List ℕ → List ℕ → Bool
contains [] part = is_nil part
contains (x ∷ xs) part = starts part (x ∷ xs) || contains xs part
