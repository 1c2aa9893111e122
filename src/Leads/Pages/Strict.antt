-- ===== src/Leads/Pages/Strict.antt =====
-- leads.go, `List`: no two rows stand before each other.
use leadflow_v3_server.Base.{
  ℕ, String, Bool, true, false, ◌&&◌, ◌||◌, ◌==◌, ◌≡◌, refl, sym, ◌∙◌, subst, ltb, eqb, Bool-cases,
  inl, inr, false≢true, text-cases, Option, none, some, arith, trim_space,
}
use leadflow_v3_server.Base.{ℤ, pos, negsuc, ltb_ℤ, eqb_ℤ}
use leadflow_v3_server.Leads.Conditions.Filters.{normalize_lead_sort, lookup-All, sort_words}
use leadflow_v3_server.Leads.Pages.{RawRow, Texts, newer, by_key, by_deal, is_before, analyst_key}
use leadflow_v3_server.Leads.Pages.Order.{TextLaws}

-- A first test with its reverse excludes the other way round; on a tie the second decides.
pub both_ways :
    (l s r l' s' r' : Bool)
    → (l ≡ true → (l' ≡ false) × (s' ≡ false))
    → (s ≡ true → l' ≡ false)
    → (r ≡ true → r' ≡ false)
    → (l || (s && r)) ≡ true
    → (l' || (s' && r')) ≡ false
both_ways true s r l' s' r' f g h e = let k = f refl in rw k.0 (rw k.1 refl)
both_ways false true true l' s' r' f g h e = rw (g refl) (rw (h refl) (no s'))
  where
    no : (b : Bool) → (b && false) ≡ false
    no b = ground arith
both_ways false true false l' s' r' f g h e = absurd (false≢true e)
both_ways false false r l' s' r' f g h e = absurd (false≢true e)

pub numbers_strict : (m n : ℕ) → ltb m n ≡ true → (ltb n m ≡ false) × (eqb m n ≡ false)
numbers_strict m n h = (ground arith, ground arith)

numbers_down : (m n : ℕ) → ltb n m ≡ true → (ltb m n ≡ false) × (eqb m n ≡ false)
numbers_down m n h = (ground arith, ground arith)

pub numbers_tied : (m n : ℕ) → eqb n m ≡ true → (ltb n m ≡ false) × (ltb m n ≡ false)
numbers_tied m n h = (ground arith, ground arith)

values_strict : (a b : ℤ) → ltb_ℤ b a ≡ true → (ltb_ℤ a b ≡ false) × (eqb_ℤ a b ≡ false)
values_strict (pos m) (pos n) h = (ground arith, ground arith)
values_strict (pos m) (negsuc n) h = (refl, refl)
values_strict (negsuc m) (pos n) h = absurd (false≢true h)
values_strict (negsuc m) (negsuc n) h = (ground arith, ground arith)

values_tied : (a b : ℤ) → eqb_ℤ b a ≡ true → ltb_ℤ a b ≡ false
values_tied (pos m) (pos n) h = ground arith
values_tied (pos m) (negsuc n) h = absurd (false≢true h)
values_tied (negsuc m) (pos n) h = absurd (false≢true h)
values_tied (negsuc m) (negsuc n) h = ground arith

module _ (x : Texts) (laws : TextLaws x) where
  texts_tied : (s t : String) → (t == s) ≡ true → x.less t s ≡ false
  texts_tied s t h = elim (text-cases t s) [
    | inl e ↦ elim (Bool-cases (x.less t s)) [
      | inl k ↦
          subst (λ u. x.less t u ≡ false) e
            (subst (λ u. x.less u t ≡ false) (sym e) (laws.less_asym t s k))
      | inr k ↦ k
    ]
    | inr e ↦ absurd (false≢true (sym e ∙ h))
  ]

  texts_strict : (s t : String) → x.less s t ≡ true → (x.less t s ≡ false) × ((s == t) ≡ false)
  texts_strict s t h = (
    laws.less_asym s t h,
    elim (Bool-cases (s == t)) [
      | inl e ↦ absurd (false≢true (sym (texts_tied t s e) ∙ h))
      | inr e ↦ e
    ],
  )

  newer-strict : (a b : RawRow) → newer x a b ≡ true → newer x b a ≡ false
  newer-strict a b =
      both_ways _ _ _ _ _ _ (numbers_down a.created_at b.created_at)
        (λ h. (numbers_tied a.created_at b.created_at h).1) (laws.less_asym b.id a.id)

  by_key-strict :
      (key : RawRow → String) (a b : RawRow) → by_key x key a b ≡ true → by_key x key b a ≡ false
  by_key-strict key a b =
      both_ways _ _ _ _ _ _ (texts_strict (key a) (key b)) (texts_tied (key a) (key b))
        (newer-strict a b)

  by_deal-strict :
      (a b : Option ℤ) (r r' : Bool)
      → (r ≡ true → r' ≡ false)
      → by_deal x a b r ≡ true
      → by_deal x b a r' ≡ false
  by_deal-strict none none r r' h e = h e
  by_deal-strict none (some b) r r' h e = absurd (false≢true e)
  by_deal-strict (some a) none r r' h e = refl
  by_deal-strict (some a) (some b) r r' h e =
      both_ways _ _ _ _ _ _ (values_strict a b) (values_tied a b) h e

  abbrev Strict : String → Type 0
  Strict sort = (a b : RawRow) → is_before x sort a b ≡ true → is_before x sort b a ≡ false

  Strict-name : Strict "name"
  unfolding is_before
  Strict-name a b =
      both_ways _ _ _ _ _ _ (texts_strict (x.lower_sql a.lead_name) (x.lower_sql b.lead_name))
        (texts_tied (x.lower_sql a.lead_name) (x.lower_sql b.lead_name)) (laws.less_asym a.id b.id)

  Strict-oldest : Strict "oldest"
  unfolding is_before
  Strict-oldest a b =
      both_ways _ _ _ _ _ _ (numbers_strict a.created_at b.created_at)
        (λ h. (numbers_tied a.created_at b.created_at h).0) (laws.less_asym a.id b.id)

  Strict-recent : Strict "recent"
  unfolding is_before
  Strict-recent a b =
      both_ways _ _ _ _ _ _ (numbers_down a.updated_at b.updated_at)
        (λ h. (numbers_tied a.updated_at b.updated_at h).1) (laws.less_asym b.id a.id)

  Strict-newest : Strict "newest"
  unfolding is_before
  Strict-newest = newer-strict

  Strict-status : Strict "status"
  unfolding is_before
  Strict-status = by_key-strict (λ row. row.status)

  Strict-stage : Strict "stage"
  unfolding is_before
  Strict-stage = by_key-strict (λ row. row.stage)

  Strict-value : Strict "value"
  unfolding is_before
  Strict-value a b = by_deal-strict a.deal b.deal (newer x a b) (newer x b a) (newer-strict a b)

  Strict-analyst : Strict "analyst"
  unfolding is_before
  Strict-analyst = by_key-strict (analyst_key x)

  pub is_before-Strict :
      (raw_sort : String) (a b : RawRow)
      → is_before x (normalize_lead_sort x.lower raw_sort) a b ≡ true
      → is_before x (normalize_lead_sort x.lower raw_sort) b a ≡ false
  unfolding normalize_lead_sort
  is_before-Strict raw_sort =
      lookup-All Strict (x.lower (trim_space raw_sort)) "name" sort_words Strict-name (
        Strict-name,
        (
          Strict-name,
          (
            Strict-name,
            (
              Strict-name,
              (
                Strict-name,
                (
                  Strict-newest,
                  (
                    Strict-oldest,
                    (
                      Strict-recent,
                      (
                        Strict-recent,
                        (
                          Strict-recent,
                          (
                            Strict-recent,
                            (Strict-status, (Strict-stage, (Strict-value, (Strict-analyst, tt)))),
                          ),
                        ),
                      ),
                    ),
                  ),
                ),
              ),
            ),
          ),
        ),
      )
