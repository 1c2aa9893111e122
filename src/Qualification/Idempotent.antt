-- ===== src/Qualification/Idempotent.antt =====
-- qualification.go: a normalised status is a fixed point, and an accepted one has a code that is not blank.
use leadflow_v3_server.Base.{
  String, Option, none, some, Bool, true, false, false≢true, List, [], ◌∷◌, ◌==◌, ◌≡◌, ◌⊎◌, inl,
  inr, refl, sym, ap, ◌∙◌, subst, any, find, codes, codes_eq, trim_space, trim_space_idem,
  if◌then◌else◌, Bool-cases, All, eq_iff,
}
use leadflow_v3_server.Qualification.{
  allowed_qualifications, is_listed, qualification_key, code_of_key, some_or,
  normalize_qualification, canonicalize_qualification,
}
use leadflow_v3_server.Qualification.Canonical.{normalize-by_key, by_key}

-- A code that normalising leaves alone.
IsCode : String → Type 0
IsCode c = (trim_space c ≡ c) × ((c == "") ≡ false) × (is_listed c allowed_qualifications ≡ true)

codes-IsCode : All IsCode allowed_qualifications
unfolding IsCode trim_space is_listed
codes-IsCode = (
  (refl, refl, refl),
  (
    (refl, refl, refl),
    (
      (refl, refl, refl),
      ((refl, refl, refl), ((refl, refl, refl), ((refl, refl, refl), ((refl, refl, refl), tt)))),
    ),
  ),
)

find-All {κ} :
    (P : String → Type κ) (p : String → Bool) (xs : List String) (c : String)
    → All P xs
    → find p xs ≡ some c
    → P c
find-All P p [] c h e = absurd (none≢some e)
  where
    none≢some : none ≡ some c → ⊥
    none≢some q = cc
find-All P p (x ∷ xs) c h e = elim (Bool-cases (p x)) [
  | inl q ↦ subst P (same (rw q at e)) h.0
  | inr q ↦ find-All P p xs c h.1 (rw q at e)
]
  where
    same : some x ≡ some c → x ≡ c
    same r = cc

-- The value of `normalizeQualification` on a trimmed text.
abbrev result : String → String
result s = if s == "" then "" else if is_listed s allowed_qualifications then s else by_key s

result-shape :
    (s : String) (blank listed : Bool) (o : Option String)
    → (blank ≡ true → "" ≡ s)
    → ((c : String) → o ≡ some c → IsCode c)
    → let r = if blank then "" else if listed then s else some_or o s in (r ≡ s) ⊎ IsCode r
result-shape s true listed o h k = inl (h refl)
result-shape s false true o h k = inl refl
result-shape s false false none h k = inl refl
result-shape s false false (some c) h k = inr (k c refl)

result-cases : (s : String) → (result s ≡ s) ⊎ IsCode (result s)
unfolding code_of_key
result-cases s =
    result-shape s (s == "") (is_listed s allowed_qualifications)
      (code_of_key (qualification_key (codes s))) (λ e. sym ((eq_iff s "").0 e))
      (λ c e.
        find-All IsCode (λ x. codes_eq (codes x) (qualification_key (codes s)))
          allowed_qualifications c codes-IsCode e)

result-code : (c : String) → IsCode c → result c ≡ c
unfolding IsCode
result-code c (t, n, l) = rw (n, l)

result-fixed : (s : String) → trim_space s ≡ s → result (trim_space (result s)) ≡ result s
unfolding IsCode
result-fixed s t = elim (result-cases s) [
  | inl e ↦ ap (λ x. result (trim_space x)) e ∙ ap result t
  | inr c ↦ ap result c.0 ∙ result-code (result s) c
]

-- Normalising twice is normalising once, and a normalised status is either the trimmed text itself or one of
-- the seven canonical codes.
pub normalize_qualification_idem :
    (status : String)
    → (normalize_qualification (normalize_qualification status) ≡ normalize_qualification status)
      × ((normalize_qualification status ≡ trim_space status)
          ⊎ (is_listed (normalize_qualification status) allowed_qualifications ≡ true))
unfolding IsCode
normalize_qualification_idem status =
    let e = normalize-by_key status in
    let s = trim_space status in
    (
      normalize-by_key (normalize_qualification status)
          ∙ ap (λ x. result (trim_space x)) e
          ∙ result-fixed s (trim_space_idem status)
          ∙ sym e,
      elim (result-cases s) [
        | inl q ↦ inl (e ∙ q)
        | inr c ↦ inr (ap (λ x. is_listed x allowed_qualifications) e ∙ c.2)
      ],
    )

any-All {κ} :
    (P : String → Type κ) (xs : List String) (c : String)
    → All P xs
    → any (λ x. x == c) xs ≡ true
    → P c
any-All P [] c a h = absurd (false≢true h)
any-All P (x ∷ xs) c a h = elim (Bool-cases (x == c)) [
  | inl e ↦ subst P ((eq_iff x c).0 e) a.0
  | inr e ↦ any-All P xs c a.1 (rw e at h)
]

-- A status that is accepted has a code that is trimmed and not blank.
pub canonicalize-trimmed :
    (status : String)
    → (canonicalize_qualification status).1 ≡ true
    → (trim_space (canonicalize_qualification status).0 ≡ (canonicalize_qualification status).0)
      × (((canonicalize_qualification status).0 == "") ≡ false)
unfolding canonicalize_qualification is_listed IsCode
canonicalize-trimmed status h =
    let c = any-All IsCode allowed_qualifications (normalize_qualification status) codes-IsCode h in
    (c.0, c.1)
