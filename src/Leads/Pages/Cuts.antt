-- ===== src/Leads/Pages/Cuts.antt =====
-- leads.go, `List`: a sorted list is cut behind a row, and into pages.
use leadflow_v3_server.Base.{
  ℕ, zero, suc, ◌<◌, ◌≤◌, Bool, true, false, List, [], ◌∷◌, ◌++◌, ◌≡◌, refl, ap, length, take, keep,
  All, Bool-cases, inl, inr, arith,
}

module _ {ℓ} {A : Type ℓ} where
  pub keep-ext : (p q : A → Bool) (xs : List A) → ((a : A) → p a ≡ q a) → keep p xs ≡ keep q xs
  keep-ext p q [] h = refl
  keep-ext p q (a ∷ xs) h = rw (h a) (rw (keep-ext p q xs h) refl)

  pub keep_whole : (p : A → Bool) (xs : List A) → All (λ a. p a ≡ true) xs → keep p xs ≡ xs
  keep_whole p [] h = refl
  keep_whole p (a ∷ xs) h = rw h.0 (ap (λ rest. a ∷ rest) (keep_whole p xs h.1))

  pub take_whole : (n : ℕ) (xs : List A) → length xs ≤ n → take n xs ≡ xs
  take_whole zero [] h = refl
  take_whole zero (a ∷ xs) h = absurd (omega arith)
  take_whole (suc n) [] h = refl
  take_whole (suc n) (a ∷ xs) h = ap (λ rest. a ∷ rest) (take_whole n xs (omega arith))

  pub take-take : (n : ℕ) (xs : List A) → take n (take (suc n) xs) ≡ take n xs
  take-take zero xs = refl
  take-take (suc n) [] = refl
  take-take (suc n) (a ∷ xs) = ap (λ rest. a ∷ rest) (take-take n xs)

  pub length-take : (n : ℕ) (xs : List A) → n ≤ length xs → length (take n xs) ≡ n
  length-take zero xs h = refl
  length-take (suc n) [] h = absurd (omega arith)
  length-take (suc n) (a ∷ xs) h = ap (λ k. suc k) (length-take n xs (omega arith))

  -- The first `suc n` members, the last of them apart, and the rest.
  pub record Cut (n : ℕ) (xs : List A) : Type ℓ where
    pub front : List A
    pub last : A
    pub rest : List A
    pub whole : xs ≡ front ++ last ∷ rest
    pub taken : take (suc n) xs ≡ front ++ last ∷ []
    pub fewer : length rest < length xs

  pub cut : (n : ℕ) (xs : List A) → n < length xs → Cut n xs
  cut n [] h = absurd (omega arith)
  cut zero (a ∷ xs) h = record {
    front = [];
    last = a;
    rest = xs;
    whole = refl;
    taken = refl;
    fewer = omega arith;
  }
  cut (suc n) (a ∷ xs) h =
      let c = cut n xs (omega arith) in
      record {
        front = a ∷ c.front;
        last = c.last;
        rest = c.rest;
        whole = ap (λ ys. a ∷ ys) c.whole;
        taken = ap (λ ys. a ∷ ys) c.taken;
        fewer = omega (arith, c.fewer);
      }

  pub at_middle {κ} :
      (P : A → Type κ) (front : List A) (a : A) (rest : List A) → All P (front ++ a ∷ rest) → P a
  at_middle P [] a rest h = h.0
  at_middle P (b ∷ front) a rest h = at_middle P front a rest h.1

  module _ (before : A → A → Bool) where
    -- Each member stands before all that follow it.
    abbrev pub IsOrdered : List A → Type 0
    IsOrdered [] = Unit
    IsOrdered (a ∷ xs) = All (λ b. before a b ≡ true) xs × IsOrdered xs

    -- What stands after a member is the rest of the list.
    pub keep-after :
        ((a b : A) → before a b ≡ true → before b a ≡ false)
        → (front : List A) (a : A) (rest : List A) → IsOrdered (front ++ a ∷ rest)
        → keep (before a) (front ++ a ∷ rest) ≡ rest
    keep-after strict [] a rest h = rw irreflexive (keep_whole (before a) rest h.0)
      where
        irreflexive : before a a ≡ false
        irreflexive = elim (Bool-cases (before a a)) [ inl e ↦ strict a a e | inr e ↦ e ]
    keep-after strict (b ∷ front) a rest h =
        rw (strict b a (at_middle (λ c. before b c ≡ true) front a rest h.0))
          (keep-after strict front a rest h.1)
