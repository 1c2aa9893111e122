-- ===== src/Leads/Sound.antt =====
-- leads.go: what holds of the rows of "Lead" between the calls, and what a write to one row has to keep.
pub mod Rules
pub mod Kept
pub mod Reading
pub mod Statuses
pub mod Removals
pub mod Assignments
pub mod Edits
pub mod Creations
pub mod Created
pub mod Outcomes
pub mod Marks
use leadflow_v3_server.Base.{
  any, ◌&&◌, Bool, String, Option, none, some, Bool, true, false, false≢true, not, ◌&&◌, ◌||◌, List,
  [], ◌∷◌, ◌==◌, ◌≡◌, refl, sym, ap, ◌∙◌, subst, inl, inr, find, update, All, arith, Bool-cases,
  eq_iff, eq_refl, trim_space, given_positive, if◌then◌else◌,
}
use leadflow_v3_server.Db.{Db, LeadRow, QualificationRow}
use leadflow_v3_server.Leads.Log.{is_lead, is_entry_of}
use leadflow_v3_server.Leads.Outcome.{is_closed_stage}
use leadflow_v3_server.Leads.Status.{is_unmarked}
use leadflow_v3_server.Leads.Assign.Rows.{Absent, IsKeyed, IsKeyed-update}

abbrev pub has_entry : String → List QualificationRow → Bool
has_entry id log = any (λ r. r.lead_id == id) log

-- Some entry of the lead says the status.
abbrev pub says : String → String → List QualificationRow → Bool
says id status log = any (λ r. r.lead_id == id && r.to_status == status) log

-- Once a lead has entries in the log, one of them says its status.
abbrev pub Agrees : List QualificationRow → LeadRow → Type 0
Agrees log l = has_entry l.id log ≡ true → says l.id (trim_space l.qualification_status) log ≡ true

abbrev pub has_closed_stage : Option String → Bool
has_closed_stage none = false
has_closed_stage (some stage) = is_closed_stage stage

abbrev pub is_won : Option String → Bool
is_won none = false
is_won (some stage) = stage == "CLOSED_WON"

abbrev pub is_given {ℓ} : {A : Type ℓ} → Option A → Bool
is_given none = false
is_given (some x) = true

-- A lead has a closing time exactly in a closed stage, and a won one has a revenue.
abbrev pub IsSettled : LeadRow → Type 0
IsSettled l =
    (is_given l.closed_at ≡ has_closed_stage l.sales_stage)
    × (is_won l.sales_stage ≡ true → given_positive l.closed_revenue ≡ true)

abbrev pub RowSound : List QualificationRow → LeadRow → Type 0
RowSound log l = (trim_space l.id ≡ l.id) × Agrees log l × IsSettled l

-- The ids are the key and are trimmed, each lead with entries in the log has one that says its status, and
-- each lead is settled.
unfoldable pub IsSound : Db → Type 0
IsSound d = IsKeyed d.leads × All (RowSound d.qualification_log) d.leads

-- Being sound is decided by the two tables.
pub IsSound-of : (d : Db) → IsKeyed d.leads → All (RowSound d.qualification_log) d.leads → IsSound d
unfolding IsSound
IsSound-of d k a = (k, a)

pub IsSound-IsKeyed : (d : Db) → IsSound d → IsKeyed d.leads
unfolding IsSound
IsSound-IsKeyed d s = s.0

pub IsSound-rows : (d : Db) → IsSound d → All (RowSound d.qualification_log) d.leads
unfolding IsSound
IsSound-rows d s = s.1

module _ (id : String) where
  -- What is known of the rows of other ids.
  abbrev pub Elsewhere : (LeadRow → Type 0) → LeadRow → Type 0
  Elsewhere P l = (l.id == id) ≡ false → P l

  All-Elsewhere : (P : LeadRow → Type 0) (ls : List LeadRow) → All P ls → All (Elsewhere P) ls
  All-Elsewhere P [] a = tt
  All-Elsewhere P (l ∷ ls) a = ((λ _. a.0), All-Elsewhere P ls a.1)

  Absent-rows :
      (P R : LeadRow → Type 0) (f : LeadRow → LeadRow) (ls : List LeadRow)
      → Absent id ls
      → ((l : LeadRow) → (l.id == id) ≡ false → P l → R l)
      → All (Elsewhere P) ls
      → All R (update (is_lead id) f ls)
  Absent-rows P R f [] b h a = tt
  Absent-rows P R f (l ∷ ls) b h a = rw b.0 (h l b.0 (a.0 b.0), Absent-rows P R f ls b.1 h a.1)

  -- A write to the row of one id: that row, and the others.
  pub written_rows :
      (P R : LeadRow → Type 0) (f : LeadRow → LeadRow) (found : LeadRow) (ls : List LeadRow)
      → IsKeyed ls
      → find (is_lead id) ls ≡ some found
      → R (f found)
      → ((l : LeadRow) → (l.id == id) ≡ false → P l → R l)
      → All (Elsewhere P) ls
      → All R (update (is_lead id) f ls)
  written_rows P R f found [] k e r h a = tt
  written_rows P R f found (l ∷ ls) k e r h a = elim (Bool-cases (l.id == id)) [
    | inl q ↦ rw q (
      subst (λ x. R (f x)) (sym (is_found l ls q e)) r,
      Absent-rows P R f ls (subst (λ x. Absent x ls) ((eq_iff l.id id).0 q) k.0) h a.1,
    )
    | inr q ↦ rw q (h l q (a.0 q), written_rows P R f found ls k.1 (rest l ls q e) r h a.1)
  ]
    where
      is_found :
          (l : LeadRow) (ls : List LeadRow)
          → (l.id == id) ≡ true
          → find (is_lead id) (l ∷ ls) ≡ some found
          → l ≡ found
      is_found l ls q e = cc

      rest :
          (l : LeadRow) (ls : List LeadRow)
          → (l.id == id) ≡ false
          → find (is_lead id) (l ∷ ls) ≡ some found
          → find (is_lead id) ls ≡ some found
      rest l ls q e = cc

  -- What holds of all rows holds of the one that is found, which has the id.
  pub found_row :
      (P : LeadRow → Type 0) (found : LeadRow) (ls : List LeadRow)
      → find (is_lead id) ls ≡ some found
      → All P ls
      → P found × (found.id ≡ id)
  found_row P found [] e a = cc
  found_row P found (l ∷ ls) e a = elim (Bool-cases (l.id == id)) [
    | inl q ↦
        let same : l ≡ found = cc in subst (λ x. P x × (x.id ≡ id)) same (a.0, (eq_iff l.id id).0 q)
    | inr q ↦ found_row P found ls (let h : find (is_lead id) ls ≡ some found = cc in h) a.1
  ]

  Absent-unmarked :
      (f : LeadRow → LeadRow) (ls : List LeadRow)
      → Absent id ls
      → update (is_unmarked id) f ls ≡ update (is_lead id) f ls
  Absent-unmarked f [] b = refl
  Absent-unmarked f (l ∷ ls) b = rw (b.0, Absent-unmarked f ls b.1)

  -- Where the row of the id is not marked, the test on the mark changes nothing.
  pub update-unmarked :
      (f : LeadRow → LeadRow) (found : LeadRow) (ls : List LeadRow)
      → IsKeyed ls
      → find (is_lead id) ls ≡ some found
      → found.not_appropriate ≡ false
      → update (is_unmarked id) f ls ≡ update (is_lead id) f ls
  update-unmarked f found [] k e n = refl
  update-unmarked f found (l ∷ ls) k e n = elim (Bool-cases (l.id == id)) [
    | inl q ↦
        let same : l ≡ found = cc in
        let free : l.not_appropriate ≡ false = ap (λ (x : LeadRow). x.not_appropriate) same ∙ n in
        rw (q, free, Absent-unmarked f ls (subst (λ x. Absent x ls) ((eq_iff l.id id).0 q) k.0))
    | inr q ↦
        rw (
          q,
          update-unmarked f found ls k.1 (let h : find (is_lead id) ls ≡ some found = cc in h) n,
        )
  ]
