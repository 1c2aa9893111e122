-- ===== src/Leads/Sound/Outcomes.antt =====
-- leads.go, `UpdateSalesOutcome`: it keeps the rows sound.
use leadflow_v3_server.Base.{
  ℕ, String, some, Bool, true, false, not, ◌&&◌, ◌==◌, ◌≡◌, refl, sym, ap, ◌∙◌, trim_space, arith,
  eqb, given_positive,
}
use leadflow_v3_server.Db.{Db, LeadRow}
use leadflow_v3_server.Db.Statements.{message, ◌>>=◌, query, exec, database}
use leadflow_v3_server.Db.Triples.{Runs-weaken}
use leadflow_v3_server.Db.Outcomes.{
  Leaves, Leaves-if, Leaves-refuse, Leaves-read, Leaves-bind, Leaves-exec_last,
}
use leadflow_v3_server.Users.{found_or}
use leadflow_v3_server.Leads.Assign.{retell}
use leadflow_v3_server.Leads.Assign.Steps.{Leaves-retell, Runs-retell}
use leadflow_v3_server.Leads.Detail.{read_lead}
use leadflow_v3_server.Leads.Outcome.{
  SalesOutcomeInput, update_sales_outcome, outcome_row, write_outcome, wanted_stage, wanted_revenue,
  is_closed_stage,
}
use leadflow_v3_server.Leads.Sound.{IsSound, IsSettled, is_given, is_won, has_closed_stage}
use leadflow_v3_server.Leads.Sound.Kept.{IsSound-written}
use leadflow_v3_server.Leads.Sound.Reading.{get_by_id-Leaves}
use leadflow_v3_server.Leads.Sound.Rules.{found-Runs, Leaves-found, read_lead-found}

module _ (now : ℕ) (input : SalesOutcomeInput) (l : LeadRow) (current : String) where
  abbrev new_row : LeadRow → LeadRow
  new_row = outcome_row now input l (wanted_stage input current)

  pub outcome_row-id : (r : LeadRow) → (new_row r).id ≡ r.id
  outcome_row-id r = ground arith

  outcome_row-status : (r : LeadRow) → (new_row r).qualification_status ≡ r.qualification_status
  outcome_row-status r = ground arith

  outcome_row-revenue : (new_row l).closed_revenue ≡ wanted_revenue input l
  outcome_row-revenue = ground arith

  outcome_row-stage :
      l.sales_stage ≡ some current → (new_row l).sales_stage ≡ some (wanted_stage input current)
  outcome_row-stage e = ground arith

  outcome_row-closed :
      l.sales_stage ≡ some current
      → is_given l.closed_at ≡ has_closed_stage l.sales_stage
      → is_given (new_row l).closed_at ≡ is_closed_stage (wanted_stage input current)
  outcome_row-closed e h = ground arith

  outcome_row-IsSettled :
      l.sales_stage ≡ some current
      → (wanted_stage input current == "CLOSED_WON"
          && not (given_positive (wanted_revenue input l)))
        ≡ false
      → IsSettled l
      → IsSettled (new_row l)
  outcome_row-IsSettled e g h = (
    outcome_row-closed e h.0 ∙ ap has_closed_stage (sym (outcome_row-stage e)),
    λ w.
        ap given_positive outcome_row-revenue
        ∙ passed _ _ (ap is_won (sym (outcome_row-stage e)) ∙ w) g,
  )
    where
      passed : (a b : Bool) → a ≡ true → (a && not b) ≡ false → b ≡ true
      passed a b p q = ground arith

-- Recording an outcome keeps the rows sound, whatever the server answers.
pub update_sales_outcome-Leaves :
    (id_before : String → String → Bool) (uuid : String) (now : ℕ) (id : String)
    (input : SalesOutcomeInput) (d : Db)
    → IsSound d
    → Leaves (update_sales_outcome id_before uuid now id input) d IsSound
unfolding update_sales_outcome exec
update_sales_outcome-Leaves id_before uuid now id input d s =
    Leaves-refuse IsSound (trim_space id == "") _ _ d s λ _.
      Leaves-if IsSound
        (not input.has_stage
          && not input.has_payment
          && not input.has_revenue
          && not input.has_notes)
        _ _ d (λ _. get_by_id-Leaves id_before uuid now id d s)
        λ _.
          Leaves-read IsSound
            (retell (message "lead not found")
              (query (read_lead id) >>= found_or (message "lead not found")))
            _ d (λ row. read_lead id d ≡ some row) s
            (Leaves-retell (λ x. x ≡ d) _ _ d (Leaves-found (λ x. x ≡ d) _ (read_lead id) d refl))
            (Runs-retell _ _ d _
              (Runs-weaken _ d _ _ (found-Runs _ (read_lead id) d) λ row d' q. q.1))
            λ row e. Leaves-refuse IsSound _ _ _ d s λ _. Leaves-refuse IsSound _ _ _ d s λ _.
              Leaves-refuse IsSound _ _ _ d s λ _. Leaves-refuse IsSound _ _ _ d s λ g.
                Leaves-bind IsSound _ _ d
                  (Leaves-exec_last IsSound database _
                    (write_outcome now input id row.0 (wanted_stage input row.1)) d s
                    (written row e g))
                  λ rows d' s'.
                    Leaves-refuse IsSound (eqb rows 0) _ _ d' s'
                      λ _. get_by_id-Leaves id_before uuid now id d' s'
  where
    written :
        (row : LeadRow × String)
        → read_lead id d ≡ some row
        → (wanted_stage input row.1 == "CLOSED_WON"
            && not (given_positive (wanted_revenue input row.0)))
          ≡ false
        → IsSound (write_outcome now input id row.0 (wanted_stage input row.1) d)
    written row e g =
        let f = read_lead-found id d row e in
        IsSound-written id (outcome_row now input row.0 (wanted_stage input row.1))
          (outcome_row-id now input row.0 row.1) d row.0 s f.0
          (ap trim_space (outcome_row-status now input row.0 row.1 row.0))
          (outcome_row-IsSettled now input row.0 row.1 f.1 g)
