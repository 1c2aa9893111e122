-- ===== src/Leads/Conditions/Numbered.antt =====
-- leads.go, search.go: the placeholders of the clauses and the arguments belong together.
pub mod Closed
pub mod Searches
pub mod Places
use leadflow_v3_server.Base.{
  drop, trim_space, Option, ℕ, zero, suc, ◌+◌, ◌-◌, ◌<◌, ◌≤◌, String, Bool, true, false, ◌&&◌, ◌||◌,
  List, [], ◌∷◌, ◌++◌, ◌≡◌, refl, sym, ap, ◌∙◌, subst, any, all, eqb, ltb, length, length-append,
  All, All-append, arith, Bool-cases, inl, inr, map, false≢true, eqb_refl, ltb→lt, if◌then◌else◌,
}
use leadflow_v3_server.Access.{LeadListParams}
use leadflow_v3_server.Leads.Conditions.{
  no_args, without_reserved, preset_conditions, build_lead_list_where,
}
use leadflow_v3_server.Leads.Conditions.Facets.{lead_facets}
use leadflow_v3_server.Leads.Conditions.Search.{lead_search}
use leadflow_v3_server.Leads.Conditions.Parts.{
  Arg, Piece, text, arg, Word, sql, placeholder, written, Condition, Built, append_condition,
  append_conditions,
}
use leadflow_v3_server.Leads.Conditions.Numbered.Searches.{lead_search-AllClosed}
use leadflow_v3_server.Leads.Conditions.Numbered.Places.{lead_facets-AllClosed}
use leadflow_v3_server.Leads.Conditions.Numbered.Closed.{
  is_arg, fits, covers, IsClosed, AllClosed, preset_conditions-AllClosed,
}

-- The placeholder counts from one, past those that are reserved, up to the number of arguments.
abbrev pub InRange : ℕ → ℕ → Word → Type 0
InRange reserved n (sql s) = Unit
InRange reserved n (placeholder k) = (reserved < k) × (k ≤ n)

abbrev pub names : ℕ → Word → Bool
names k (sql s) = false
names k (placeholder j) = eqb k j

-- All placeholders have an argument, and all arguments past the reserved ones have a placeholder; `n` is the
-- number of arguments, the reserved ones counted.
pub record IsNumbered (reserved n : ℕ) (conditions : List (List Word)) : Type 0 where
  pub bound : All (λ c. All (InRange reserved n) c) conditions
  pub used : (k : ℕ) → reserved < k → k ≤ n → any (λ c. any (names k) c) conditions ≡ true

any-append {ℓ} :
    {A : Type ℓ} (p : A → Bool) (xs ys : List A) → any p (xs ++ ys) ≡ (any p xs || any p ys)
any-append p [] ys = refl
any-append p (x ∷ xs) ys = ground (arith, any-append p xs ys)

InRange-mono : (r m n : ℕ) (w : Word) → m ≤ n → InRange r m w → InRange r n w
InRange-mono r m n (sql s) h i = tt
InRange-mono r m n (placeholder k) h i = omega arith

All-mono {ℓ κ} :
    {A : Type ℓ} (P Q : A → Type κ) (xs : List A) → ((x : A) → P x → Q x) → All P xs → All Q xs
All-mono P Q [] h a = tt
All-mono P Q (x ∷ xs) h a = (h x a.0, All-mono P Q xs h a.1)

written-InRange :
    (r base m n : ℕ) (ps : List Piece)
    → r ≤ base
    → n ≡ base + m
    → all (fits m) ps ≡ true
    → All (InRange r n) (map (written n) ps)
written-InRange r base m n [] h e f = tt
written-InRange r base m n (text s ∷ ps) h e f = (tt, written-InRange r base m n ps h e f)
written-InRange r base m n (arg k ∷ ps) h e f = elim (Bool-cases (ltb k m)) [
  | inl q ↦
      let lt : k < m = ltb→lt k m q in (omega arith, written-InRange r base m n ps h e (rw q at f))
  | inr q ↦ absurd (false≢true (rw q at f))
]

written-names :
    (n j k : ℕ) (ps : List Piece)
    → k ≡ n - j
    → any (is_arg j) ps ≡ true
    → any (names k) (map (written n) ps) ≡ true
written-names n j k [] e h = h
written-names n j k (text s ∷ ps) e h = written-names n j k ps e h
written-names n j k (arg i ∷ ps) e h = elim (Bool-cases (eqb j i)) [
  | inl q ↦ let same : eqb k (n - i) ≡ true = ground arith in rw same refl
  | inr q ↦ or_right (eqb k (n - i)) _ (written-names n j k ps e (rw q at h))
]
  where
    or_right : (a b : Bool) → b ≡ true → (a || b) ≡ true
    or_right a b q = ground arith

covers-any : (m j : ℕ) (ps : List Piece) → j < m → covers m ps ≡ true → any (is_arg j) ps ≡ true
covers-any zero j ps h c = absurd (omega arith)
covers-any (suc m) j ps h c = elim (Bool-cases (eqb j m)) [
  | inl q ↦
      let same : j ≡ m = ground arith in
      subst (λ i. any (is_arg i) ps ≡ true) (sym same) (left (any (is_arg m) ps) (covers m ps) c)
  | inr q ↦ covers-any m j ps (ground arith) (right (any (is_arg m) ps) (covers m ps) c)
]
  where
    left : (a b : Bool) → (a && b) ≡ true → a ≡ true
    left a b q = ground arith

    right : (a b : Bool) → (a && b) ≡ true → b ≡ true
    right a b q = ground arith

append_condition-IsNumbered :
    (r : ℕ) (b : Built) (c : Condition)
    → r ≤ length b.args
    → IsClosed c
    → IsNumbered r (length b.args) b.conditions
    → IsNumbered r (length (append_condition b c).args) (append_condition b c).conditions
unfolding append_condition
append_condition-IsNumbered r b c h k i =
    let n = length (b.args ++ c.args) in
    let e : n ≡ length b.args + length c.args = length-append b.args c.args in
    record {
      bound =
          All-append (λ ws. All (InRange r n) ws) b.conditions _
            (All-mono _ _ b.conditions
              (λ ws. All-mono _ _ ws (λ w. InRange-mono r (length b.args) n w (omega arith)))
              i.bound)
            (written-InRange r (length b.args) (length c.args) n c.clause h e k.0, tt);
      used = λ j lo hi. any-append (λ ws. any (names j) ws) b.conditions _ ∙ found j lo hi n e;
    }
  where
    found :
        (j : ℕ)
        → r < j
        → (hi : j ≤ length (b.args ++ c.args)) → (n : ℕ) → n ≡ length b.args + length c.args
        → (any (λ ws. any (names j) ws) b.conditions
            || (any (names j) (map (written (length (b.args ++ c.args))) c.clause) || false))
          ≡ true
    found j lo hi n e = elim (Bool-cases (ltb (length b.args) j)) [
      | inl q ↦ or_last _ _ (
          written-names (length (b.args ++ c.args)) (length (b.args ++ c.args) - j) j c.clause
            (omega arith)
            (covers-any (length c.args) (length (b.args ++ c.args) - j) c.clause
              (let lt : length b.args < j = ltb→lt _ _ q in
                omega (arith, length-append b.args c.args))
              k.1))
      | inr q ↦ or_first _ _ (i.used j lo (ground arith))
    ]
      where
        or_last : (a b : Bool) → b ≡ true → (a || (b || false)) ≡ true
        or_last a b q = ground arith

        or_first : (a b : Bool) → a ≡ true → (a || b) ≡ true
        or_first a b q = ground arith

abbrev Holds : ℕ → Built → Type 0
Holds r b = (r ≤ length b.args) × IsNumbered r (length b.args) b.conditions

append_conditions-Holds :
    (r : ℕ) (b : Built) (cs : List Condition)
    → Holds r b
    → AllClosed cs
    → Holds r (append_conditions b cs)
unfolding append_conditions append_condition
append_conditions-Holds r b [] h a = h
append_conditions-Holds r b (c ∷ cs) h a =
    append_conditions-Holds r (append_condition b c) cs
      (more, append_condition-IsNumbered r b c h.0 a.0 h.1) a.1
  where
    more : r ≤ length (append_condition b c).args
    more = omega (arith, length-append b.args c.args, h.0)

length-no_args : (n : ℕ) → length (no_args n) ≡ n
length-no_args zero = refl
length-no_args (suc n) = ap (λ k. suc k) (length-no_args n)

length-drop {ℓ} :
    {A : Type ℓ} (n : ℕ) (xs : List A) → n ≤ length xs → n + length (drop n xs) ≡ length xs
length-drop zero xs h = omega arith
length-drop (suc n) [] h = absurd (omega arith)
length-drop (suc n) (x ∷ xs) h = omega (arith, length-drop n xs (omega arith))

module _ (lower upper : String → String) (parse_date : List ℕ → Option (ℕ × ℕ))
    (next_day : ℕ → ℕ) where
  -- Whatever the filters of a list of leads are, each placeholder of its WHERE clauses is past the reserved
  -- ones and has one of the returned arguments, and each returned argument has a placeholder.
  pub build_lead_list_where-IsNumbered :
      (p : LeadListParams) (reserved : ℕ)
      → let b = build_lead_list_where lower upper parse_date next_day p reserved in
        IsNumbered reserved (reserved + length b.args) b.conditions
  unfolding build_lead_list_where preset_conditions
  build_lead_list_where-IsNumbered p reserved =
      let start : Built = record { conditions = []; args = no_args reserved } in
      let presets = append_conditions start (preset_conditions lower upper parse_date next_day p) in
      let facets = append_conditions presets (lead_facets lower upper parse_date next_day p) in
      let all = append_conditions facets (lead_search lower p.query_text p.field) in
      let empty : Holds reserved start = (
        omega (arith, length-no_args reserved),
        record {
          bound = tt;
          used = λ k lo hi. absurd (omega (arith, lo, hi, length-no_args reserved));
        },
      ) in
      let built : Holds reserved all =
        append_conditions-Holds reserved facets (lead_search lower p.query_text p.field)
          (append_conditions-Holds reserved presets (lead_facets lower upper parse_date next_day p)
            (append_conditions-Holds reserved start
              (preset_conditions lower upper parse_date next_day p) empty
              (preset_conditions-AllClosed lower p.filter (trim_space p.status)))
            (lead_facets-AllClosed lower upper parse_date next_day p))
          (lead_search-AllClosed lower p.query_text p.field) in
      subst (λ n. IsNumbered reserved n all.conditions)
        (sym (length-drop reserved all.args built.0)) built.1
