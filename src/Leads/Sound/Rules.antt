-- ===== src/Leads/Sound/Rules.antt =====
-- Rules for the steps of the lead store: a row that is looked up, and a step whose error is dropped.
use leadflow_v3_server.Base.{
  String, Option, none, some, ◌≡◌, refl, sym, ap, ◌∙◌, subst, inl, inr, find, Option-cases,
}
use leadflow_v3_server.Db.{Db, LeadRow}
use leadflow_v3_server.Db.Statements.{Error, M, ◌>>=◌, query}
use leadflow_v3_server.Db.Triples.{Runs, Runs-pure, Runs-fail, Runs-query}
use leadflow_v3_server.Db.Outcomes.{Leaves, Leaves-pure, Leaves-fail, Leaves-query}
use leadflow_v3_server.Users.{found_or}
use leadflow_v3_server.Leads.Assign.Steps.{Runs-retell, Leaves-retell}
use leadflow_v3_server.Leads.Log.{is_lead}
use leadflow_v3_server.Leads.Detail.{ignore, read_lead, scanned}
use leadflow_v3_server.Leads.Status.{find_lead, lead_or_not_found}

pub Leaves-ignore :
    (I : Db → Type 0) (m : M (Unit {0})) (d : Db) → Leaves m d I → Leaves (ignore m) d I
unfolding Leaves ignore
Leaves-ignore I m d h c p = h c p

module _ {A : Type 0} where
  pub found_or-Runs :
      (e : Error) (o : Option A) (d : Db) → Runs (found_or e o) d (λ a d'. (d' ≡ d) × (o ≡ some a))
  found_or-Runs e none d = Runs-fail e d _
  found_or-Runs e (some a) d = Runs-pure a d _ (refl, refl)

  pub Leaves-found_or :
      (I : Db → Type 0) (e : Error) (o : Option A) (d : Db) → I d → Leaves (found_or e o) d I
  Leaves-found_or I e none d i = Leaves-fail A I e d i
  Leaves-found_or I e (some a) d i = Leaves-pure I a d i

  -- A row that is looked up, or an error.
  pub found-Runs :
      (e : Error) (read : Db → Option A) (d : Db)
      → Runs (query read >>= found_or e) d (λ a d'. (d' ≡ d) × (read d ≡ some a))
  found-Runs e read d = Runs-query read (found_or e) d _ (found_or-Runs e (read d) d)

  pub Leaves-found :
      (I : Db → Type 0) (e : Error) (read : Db → Option A) (d : Db)
      → I d
      → Leaves (query read >>= found_or e) d I
  Leaves-found I e read d i =
      Leaves-query I read (found_or e) d i (Leaves-found_or I e (read d) d i)

pub lead_or_not_found-Runs :
    (id : String) (d : Db)
    → Runs (lead_or_not_found id) d (λ l d'. (d' ≡ d) × (find_lead id d ≡ some l))
unfolding lead_or_not_found
lead_or_not_found-Runs id d = Runs-retell _ _ d _ (found-Runs _ (find_lead id) d)

pub Leaves-lead_or_not_found :
    (I : Db → Type 0) (id : String) (d : Db) → I d → Leaves (lead_or_not_found id) d I
unfolding lead_or_not_found
Leaves-lead_or_not_found I id d i = Leaves-retell I _ _ d (Leaves-found I _ (find_lead id) d i)

scanned-stage :
    (l : LeadRow) (row : LeadRow × String)
    → scanned l ≡ some row
    → (l ≡ row.0) × (l.sales_stage ≡ some row.1)
scanned-stage l row e = elim (Option-cases l.sales_stage) [
  | inl n ↦ absurd (let bad : none ≡ some row = sym (scan_none n) ∙ e in cc)
  | inr (s, q) ↦ let same : some (l, s) ≡ some row = sym (scan_some s q) ∙ e in (cc, q ∙ cc)
]
  where
    scan_none : l.sales_stage ≡ none → scanned l ≡ none
    scan_none n = rw n refl

    scan_some : (s : String) → l.sales_stage ≡ some s → scanned l ≡ some (l, s)
    scan_some s q = rw q refl

-- The row and the stage that the scan of a lead gives.
pub read_lead-found :
    (id : String) (d : Db) (row : LeadRow × String)
    → read_lead id d ≡ some row
    → (find (is_lead id) d.leads ≡ some row.0) × (row.0.sales_stage ≡ some row.1)
read_lead-found id d row e = elim (Option-cases (find (is_lead id) d.leads)) [
  | inl n ↦ absurd (let bad : none ≡ some row = sym (read_none n) ∙ e in cc)
  | inr (l, q) ↦
      let s : (l ≡ row.0) × (l.sales_stage ≡ some row.1) =
        scanned-stage l row (sym (read_some l q) ∙ e) in
      (q ∙ ap some s.0, subst (λ (x : LeadRow). x.sales_stage ≡ some row.1) s.0 s.1)
]
  where
    read_none : find (is_lead id) d.leads ≡ none → read_lead id d ≡ none
    read_none n = rw (read_lead, n) refl

    read_some : (l : LeadRow) → find (is_lead id) d.leads ≡ some l → read_lead id d ≡ scanned l
    read_some l q = rw (read_lead, q) refl
