-- ===== src/Qualification/Canonical.antt =====
-- qualification.go: normalising is idempotent, and the last loop, over the labels, never decides.
use leadflow_v3_server.Base.{
  ℕ, String, Option, none, some, Bool, true, not, ◌&&◌, List, [], ◌∷◌, ◌==◌, ◌≡◌, inl, inr, refl,
  sym, ap, ◌∙◌, all, map, codes, upper, fold, ltb, eqb, All, codes_eq_sound, equal_fold, trim_space,
  if◌then◌else◌, arith, Bool-cases, collapse, replace, trim_underscores,
}
use leadflow_v3_server.Qualification.{
  qualification_labels, allowed_qualifications, is_listed, qualification_key, code_of_key,
  code_of_label, some_or, first_some, normalize_trimmed, normalize_qualification,
}

-- A letter of ASCII that no letter outside ASCII folds to.
plain : ℕ → Bool
plain c = ltb c 128 && not (eqb c b'k') && not (eqb c b'K') && not (eqb c b's') && not (eqb c b'S')

upper-of-fold : (c d : ℕ) → plain c ≡ true → fold c ≡ fold d → upper c ≡ upper d
unfolding plain fold upper
upper-of-fold c d h e = ground arith

upper-of-folds :
    (xs ys : List ℕ) → all plain xs ≡ true → map fold xs ≡ map fold ys → map upper xs ≡ map upper ys
upper-of-folds [] [] h e = refl
upper-of-folds [] (y ∷ ys) h e = cc
upper-of-folds (x ∷ xs) [] h e = cc
upper-of-folds (x ∷ xs) (y ∷ ys) h e = ground (arith, upper-of-fold x y, upper-of-folds xs ys)

-- The key depends on the upper case alone.
key_cong :
    (xs ys : List ℕ) → map upper xs ≡ map upper ys → qualification_key xs ≡ qualification_key ys
unfolding qualification_key
key_cong xs ys e =
    ap (λ us. trim_underscores (collapse (replace b' ' b'_' (replace b'-' b'_' us)))) e

label-key :
    (s code label : String)
    → all plain (codes (trim_space label)) ≡ true
    → code_of_key (qualification_key (codes (trim_space label))) ≡ some code
    → equal_fold (trim_space label) s ≡ true
    → code_of_key (qualification_key (codes s)) ≡ some code
unfolding equal_fold
label-key s code label p k e =
    ap code_of_key (
      key_cong (codes s) (codes (trim_space label))
        (sym (upper-of-folds _ _ p (codes_eq_sound _ _ e))))
    ∙ k

-- Each label is itself read as its code.
ReadsAs : String × String → Type 0
ReadsAs (code, label) =
    (all plain (codes (trim_space label)) ≡ true)
    × (code_of_key (qualification_key (codes (trim_space label))) ≡ some code)

labels_read : All ReadsAs qualification_labels
unfolding ReadsAs plain trim_space code_of_key qualification_key
labels_read = (
  (refl, refl),
  (
    (refl, refl),
    ((refl, refl), ((refl, refl), ((refl, refl), ((refl, refl), ((refl, refl), tt))))),
  ),
)

label-none :
    (s : String) (ls : List (String × String))
    → All ReadsAs ls
    → code_of_key (qualification_key (codes s)) ≡ none
    → code_of_label s ls ≡ none
unfolding ReadsAs code_of_label
label-none s [] h e = refl
label-none s ((code, label) ∷ ls) h e = elim (Bool-cases (equal_fold (trim_space label) s)) [
  | inl q ↦ absurd (none≢some (sym e ∙ label-key s code label h.0.0 h.0.1 q))
  | inr q ↦ rw q (label-none s ls h.1 e)
]
  where
    none≢some : {c : String} → none ≡ some c → ⊥
    none≢some p = cc

-- The text that the key alone decides: its code, or the trimmed text.
abbrev pub by_key : String → String
by_key s = some_or (code_of_key (qualification_key (codes s))) s

first_some-none : (o p : Option String) → (o ≡ none → p ≡ none) → first_some o p ≡ o
first_some-none none p h = h refl
first_some-none (some c) p h = refl

-- The loop over the labels never changes the result: a text that matches a label already has the key of its code.
pub normalize-by_key :
    (status : String)
    → normalize_qualification status ≡ (
        if trim_space status == ""
        then ""
        else if is_listed (trim_space status) allowed_qualifications
        then trim_space status
        else by_key (trim_space status))
unfolding normalize_qualification normalize_trimmed
normalize-by_key status =
    let s = trim_space status in
    ap (λ o. if s == "" then "" else if is_listed s allowed_qualifications then s else some_or o s)
      (first_some-none (code_of_key (qualification_key (codes s)))
        (code_of_label s qualification_labels) (label-none s qualification_labels labels_read))
