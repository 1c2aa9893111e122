-- ===== src/Leads/Conditions/Literal.antt =====
-- leads.go, `escapeILIKE`: the pattern of a search stands for its text, character by character.
use leadflow_v3_server.Base.{
  ℕ, Bool, true, false, ◌||◌, ◌&&◌, List, [], ◌∷◌, ◌++◌, ◌≡◌, refl, ◌∙◌, ap, eqb, is_nil, sym,
  subst, eqb→eq, arith, Bool-cases, inl, inr, if◌then◌else◌,
}
use leadflow_v3_server.Leads.Conditions.Patterns.{
  escape_char, escape_ilike, anywhere, starts, contains,
}

abbrev pub is_special : ℕ → Bool
is_special c = eqb c b'\\' || (eqb c b'%' || eqb c b'_')

-- What PostgreSQL documents of LIKE with ESCAPE '\'.
pub record LikeLaws (like : List ℕ → List ℕ → Bool) : Type 0 where
  pub at_end : (s : List ℕ) → like [] s ≡ is_nil s
  pub any_end : (p : List ℕ) → like (b'%' ∷ p) [] ≡ like p []
  pub any_next :
      (p : List ℕ) (x : ℕ) (s : List ℕ)
      → like (b'%' ∷ p) (x ∷ s) ≡ (like p (x ∷ s) || like (b'%' ∷ p) s)
  pub escaped_end : (c : ℕ) (p : List ℕ) → like (b'\\' ∷ c ∷ p) [] ≡ false
  pub escaped_next :
      (c : ℕ) (p : List ℕ) (x : ℕ) (s : List ℕ)
      → like (b'\\' ∷ c ∷ p) (x ∷ s) ≡ (eqb c x && like p s)
  pub plain_end : (c : ℕ) (p : List ℕ) → is_special c ≡ false → like (c ∷ p) [] ≡ false
  pub plain_next :
      (c : ℕ) (p : List ℕ) (x : ℕ) (s : List ℕ)
      → is_special c ≡ false
      → like (c ∷ p) (x ∷ s) ≡ (eqb c x && like p s)

or_right : (a : Bool) {b : Bool} → b ≡ true → (a || b) ≡ true
or_right a {b} h = ground arith

starts-nil : (q : List ℕ) → starts q [] ≡ is_nil q
starts-nil [] = refl
starts-nil (x ∷ q) = refl

abbrev Escaped : ℕ → List ℕ → Type 0
Escaped c q =
    escape_ilike (c ∷ q) ≡ (if is_special c then b'\\' ∷ c ∷ escape_ilike q else c ∷ escape_ilike q)

escape_ilike-Escaped : (c : ℕ) (q : List ℕ) → Escaped c q
unfolding escape_ilike escape_char
escape_ilike-Escaped c q = elim (Bool-cases (eqb c b'\\')) [
  | inl h ↦ let e : b'\\' ≡ c = sym (eqb→eq c b'\\' h) in subst (λ x. Escaped x q) e refl
  | inr h ↦ elim (Bool-cases (eqb c b'%')) [
    | inl k ↦ let e : b'%' ≡ c = sym (eqb→eq c b'%' k) in subst (λ x. Escaped x q) e refl
    | inr k ↦ elim (Bool-cases (eqb c b'_')) [
      | inl l ↦ let e : b'_' ≡ c = sym (eqb→eq c b'_' l) in subst (λ x. Escaped x q) e refl
      | inr l ↦ rw h (rw k (rw l refl))
    ]
  ]
]

module _ (like : List ℕ → List ℕ → Bool) (laws : LikeLaws like) where
  like-percent : (s : List ℕ) → like (b'%' ∷ []) s ≡ true
  like-percent [] = laws.any_end [] ∙ laws.at_end []
  like-percent (x ∷ s) = laws.any_next [] x s ∙ or_right (like [] (x ∷ s)) (like-percent s)

  like-head :
      (c : ℕ) (q : List ℕ) (b : Bool)
      → is_special c ≡ b
      → ((s : List ℕ) → like (escape_ilike q ++ b'%' ∷ []) s ≡ starts q s)
      → (s : List ℕ)
      → like ((if b then b'\\' ∷ c ∷ escape_ilike q else c ∷ escape_ilike q) ++ b'%' ∷ []) s
        ≡ starts (c ∷ q) s
  like-head c q true e tail [] = laws.escaped_end c _
  like-head c q true e tail (x ∷ s) = laws.escaped_next c _ x s ∙ ap (λ r. eqb c x && r) (tail s)
  like-head c q false e tail [] = laws.plain_end c _ e
  like-head c q false e tail (x ∷ s) = laws.plain_next c _ x s e ∙ ap (λ r. eqb c x && r) (tail s)

  like-starts : (q s : List ℕ) → like (escape_ilike q ++ b'%' ∷ []) s ≡ starts q s
  unfolding escape_ilike escape_char
  like-starts [] s = like-percent s
  like-starts (c ∷ q) s =
      rw (escape_ilike-Escaped c q) (like-head c q (is_special c) refl (like-starts q) s)

  -- With LIKE as PostgreSQL documents it, the pattern that a search builds from a text matches exactly the
  -- values that hold the text, whatever wildcards and backslashes the text has.
  pub like-anywhere-escape_ilike :
      (q s : List ℕ) → like (anywhere (escape_ilike q)) s ≡ contains s q
  like-anywhere-escape_ilike q [] = laws.any_end _ ∙ like-starts q [] ∙ starts-nil q
  like-anywhere-escape_ilike q (x ∷ s) =
      laws.any_next _ x s
      ∙ (rw (like-starts q (x ∷ s))
          (ap (λ b. starts q (x ∷ s) || b) (like-anywhere-escape_ilike q s)))
