-- ===== src/Base/Folding.antt =====
-- Go's `strings.ToUpper`, `EqualFold` and `ReplaceAll` on code points, as far as the server compares their
-- results with ASCII texts: of the letters outside ASCII, the two whose upper case is in ASCII and the two
-- that fold into it are mapped as Go maps them, and the others, whose images stay outside ASCII, are left
-- as they are.
use Prim.Native.Nat.{ℕ, zero, suc, ◌+◌, ◌-◌, ◌≤◌, ◌<◌}
use Prim.Native.String.{String}
use mathlib.Core.Path.{◌≡◌, refl, ap, ◌∙◌}
use mathlib.Core.Bool.{Bool, true, false, ◌&&◌, ◌||◌}
use mathlib.Core.Logic.{inl, inr}
use mathlib.Core.List.{List, [], ◌∷◌, map}
use native.Mathlib.Omega.{arith}
use leadflow_v3_server.Base.Tests.{leb, eqb, if◌then◌else◌, Bool-cases}
use leadflow_v3_server.Base.Lists.{length}
use leadflow_v3_server.Base.Text.{codes}

unfoldable pub upper : ℕ → ℕ
upper c =
    if leb b'a' c && leb c b'z'
    then c - 32
    else if eqb c 0x131
    then b'I'
    else if eqb c 0x17f
    then b'S'
    else c

-- A representative of the letters that `EqualFold` identifies: the small one of ASCII.
unfoldable pub fold : ℕ → ℕ
fold c =
    if leb b'A' c && leb c b'Z'
    then c + 32
    else if eqb c 0x212a
    then b'k'
    else if eqb c 0x17f
    then b's'
    else c

unfoldable pub codes_eq : List ℕ → List ℕ → Bool
codes_eq [] [] = true
codes_eq [] (y ∷ ys) = false
codes_eq (x ∷ xs) [] = false
codes_eq (x ∷ xs) (y ∷ ys) = eqb x y && codes_eq xs ys

pub codes_eq_sound : (xs ys : List ℕ) → codes_eq xs ys ≡ true → xs ≡ ys
unfolding codes_eq
codes_eq_sound [] [] h = refl
codes_eq_sound [] (y ∷ ys) h = cc
codes_eq_sound (x ∷ xs) [] h = cc
codes_eq_sound (x ∷ xs) (y ∷ ys) h = ground (arith, codes_eq_sound xs ys)

-- strings.EqualFold, where one side is a literal of ASCII letters.
unfoldable pub equal_fold : String → String → Bool
unfolding codes_eq fold
equal_fold s t = codes_eq (map fold (codes s)) (map fold (codes t))

-- strings.ReplaceAll of one character by another.
unfoldable pub replace : ℕ → ℕ → List ℕ → List ℕ
replace a b [] = []
replace a b (x ∷ xs) = (if eqb x a then b else x) ∷ replace a b xs

-- strings.Contains(key, "__")
unfoldable pub has_double : List ℕ → Bool
has_double [] = false
has_double (x ∷ []) = false
has_double (x ∷ y ∷ xs) = (eqb x b'_' && eqb y b'_') || has_double (y ∷ xs)

-- strings.ReplaceAll(key, "__", "_"): from the left, without overlap.
unfoldable pub halve : List ℕ → List ℕ
halve [] = []
halve (x ∷ []) = x ∷ []
halve (x ∷ y ∷ xs) =
    let paired = b'_' ∷ halve xs in
    let single = x ∷ halve (y ∷ xs) in if eqb x b'_' && eqb y b'_' then paired else single

-- `for strings.Contains(key, "__")`; each round is shorter, so the length is fuel enough.
unfoldable pub collapse_loop : ℕ → List ℕ → List ℕ
unfolding has_double halve
collapse_loop zero xs = xs
collapse_loop (suc fuel) xs = elim (has_double xs) [
  | true ↦ collapse_loop fuel (halve xs)
  | false ↦ xs
]

unfoldable pub collapse : List ℕ → List ℕ
unfolding collapse_loop
collapse xs = collapse_loop (length xs) xs

halve-le : (xs : List ℕ) → length (halve xs) ≤ length xs
unfolding halve
halve-le [] = omega arith
halve-le (x ∷ []) = omega arith
halve-le (x ∷ y ∷ xs) = elim (Bool-cases (eqb x b'_' && eqb y b'_')) [
  | inl e ↦ rw e (omega (arith, halve-le xs))
  | inr e ↦ rw e (omega (arith, halve-le (y ∷ xs)))
]

halve-lt : (xs : List ℕ) → has_double xs ≡ true → length (halve xs) < length xs
unfolding halve has_double
halve-lt [] h = cc
halve-lt (x ∷ []) h = cc
halve-lt (x ∷ y ∷ xs) h = elim (Bool-cases (eqb x b'_' && eqb y b'_')) [
  | inl e ↦ rw e (omega (arith, halve-le xs))
  | inr e ↦ rw e (omega (arith, halve-lt (y ∷ xs) (rw e at h)))
]

loop_round :
    (fuel : ℕ) (xs : List ℕ)
    → (b : Bool) → has_double xs ≡ b
    → collapse_loop (suc fuel) xs ≡ (if b then collapse_loop fuel (halve xs) else xs)
unfolding collapse_loop
loop_round fuel xs true e =
    ap {B = List ℕ} (λ b. elim b [ true ↦ collapse_loop fuel (halve xs) | false ↦ xs ]) e
loop_round fuel xs false e =
    ap {B = List ℕ} (λ b. elim b [ true ↦ collapse_loop fuel (halve xs) | false ↦ xs ]) e

collapse_loop-single :
    (fuel : ℕ) (xs : List ℕ) → length xs ≤ fuel → has_double (collapse_loop fuel xs) ≡ false
unfolding collapse_loop has_double
collapse_loop-single zero [] h = refl
collapse_loop-single zero (x ∷ xs) h = absurd (omega arith)
collapse_loop-single (suc fuel) xs h = elim (Bool-cases (has_double xs)) [
  | inl e ↦
      ap has_double (loop_round fuel xs true e)
      ∙ collapse_loop-single fuel (halve xs) (omega (arith, halve-lt xs e))
  | inr e ↦ ap has_double (loop_round fuel xs false e) ∙ e
]

-- The loop ends by its test: no double underscore is left.
pub collapse-single : (xs : List ℕ) → has_double (collapse xs) ≡ false
unfolding collapse
collapse-single xs = collapse_loop-single (length xs) xs (omega arith)

-- strings.Trim(key, "_")
unfoldable pub trim_underscore_left : List ℕ → List ℕ
trim_underscore_left [] = []
trim_underscore_left (x ∷ xs) = if eqb x b'_' then trim_underscore_left xs else x ∷ xs

abbrev ends : ℕ → List ℕ → List ℕ
ends x [] = if eqb x b'_' then [] else x ∷ []
ends x (y ∷ ys) = x ∷ y ∷ ys

unfoldable pub trim_underscore_right : List ℕ → List ℕ
trim_underscore_right [] = []
trim_underscore_right (x ∷ xs) = ends x (trim_underscore_right xs)

unfoldable pub trim_underscores : List ℕ → List ℕ
unfolding trim_underscore_left trim_underscore_right
trim_underscores xs = trim_underscore_right (trim_underscore_left xs)
