-- ===== src/Validate/Passwords.antt =====
-- validate.go, `requirePassword`: which passwords are accepted.
use Prim.Native.Char.{code}
use leadflow_v3_server.Base.{
  ℕ, String, Bool, true, false, not, ◌&&◌, ◌||◌, List, [], ◌≡◌, refl, sym, ap, ◌∙◌, any, length,
  codes, leb, ltb, is_space, trim_space, trim_left, trim_right, text-cases, Bool-cases, inl, inr,
  false≢true, arith, if◌then◌else◌,
}
use leadflow_v3_server.Validate.{
  FieldError, require_password, is_letter, is_decimal, add, has_errors,
}

is_space-decimal : (c : ℕ) → is_space c ≡ true → is_decimal c ≡ false
unfolding is_space
is_space-decimal c h = ground arith

abbrev filled : String → Bool
filled String.[] = false
filled (String.◌∷◌ c s) = true

-- What is left of a text that trims to nothing.
trim_left-blank : (s : String) → filled (trim_left s) ≡ false → any is_decimal (codes s) ≡ false
unfolding trim_left
trim_left-blank String.[] h = refl
trim_left-blank (String.◌∷◌ c s) h = elim (Bool-cases (is_space (code c))) [
  | inl e ↦ rw (is_space-decimal (code c) e) (trim_left-blank s (rw e at h))
  | inr e ↦ absurd (false≢true (sym (rw e at h)))
]

trim_right-filled : (s : String) → filled (trim_right (trim_left s)) ≡ filled (trim_left s)
unfolding trim_left trim_right
trim_right-filled String.[] = refl
trim_right-filled (String.◌∷◌ c s) = elim (Bool-cases (is_space (code c))) [
  | inl e ↦ rw e (trim_right-filled s)
  | inr e ↦ rw e (rw e refl)
]

blank : (s : String) → trim_space s ≡ "" → any is_decimal (codes s) ≡ false
unfolding trim_space
blank s e = trim_left-blank s (sym (trim_right-filled s) ∙ ap filled e)

abbrev pub is_password : String → Bool
is_password value =
    leb 8 (length (codes value))
    && (leb (length (codes value)) 128
        && (any is_letter (codes value) && any is_decimal (codes value)))

-- `a` tells that the text is too short, `b` that it is too long, `l` and `d` that it has a letter and a digit.
abbrev verdict : String → Bool → Bool → Bool → Bool → List FieldError
verdict field a b l d =
    let short = if a then add field (codes "password must be at least 8 characters") [] else [] in
    let long =
      if b then add field (codes "password must be at most 128 characters") short else short in
    if not a && (not l || not d)
    then add field (codes "password must include at least one letter and one number") long
    else long

verdict-has_errors :
    (field : String) (a b l d : Bool)
    → has_errors (verdict field a b l d) ≡ not (not a && (not b && (l && d)))
verdict-has_errors field true true l d = refl
verdict-has_errors field true false l d = refl
verdict-has_errors field false true true true = refl
verdict-has_errors field false true true false = refl
verdict-has_errors field false true false d = refl
verdict-has_errors field false false true true = refl
verdict-has_errors field false false true false = refl
verdict-has_errors field false false false d = refl

-- The check of a password returns it as it is, and adds an error exactly if the password does not have 8 to
-- 128 characters with a letter and a digit among them.
pub require_password-has_errors :
    (field value : String)
    → ((require_password [] field value).value ≡ value)
      × (has_errors (require_password [] field value).errors ≡ not (is_password value))
unfolding require_password
require_password-has_errors field value = elim (text-cases (trim_space value) "") [
  | inl e ↦ (
    rw e refl,
    rw e (
        rw (blank value e) (
          sym (
            none_of (leb 8 (length (codes value))) (leb (length (codes value)) 128)
              (any is_letter (codes value))))),
  )
  | inr e ↦
      let n = length (codes value) in
      let short : leb 8 n ≡ not (ltb n 8) = ground arith in
      let long : leb n 128 ≡ not (ltb 128 n) = ground arith in
      (rw e refl, rw e (rw short (rw long (verdict-has_errors field (ltb n 8) (ltb 128 n) _ _))))
]
  where
    none_of : (a b l : Bool) → not (a && (b && (l && false))) ≡ true
    none_of a b l = ground arith
