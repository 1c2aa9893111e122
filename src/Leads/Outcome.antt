-- ===== src/Leads/Outcome.antt =====
-- leads.go, `UpdateSalesOutcome`: the stage, the amounts and the notes that a sales executive edits.
use leadflow_v3_server.Base.{
  ℕ, ℤ, String, Option, none, some, Bool, not, ◌&&◌, ◌||◌, List, [], ◌∷◌, ◌==◌, any, eqb, count,
  update, trim_space, given_negative, given_positive, if◌then◌else◌,
}
use leadflow_v3_server.Db.{Db, LeadRow}
use leadflow_v3_server.Db.Statements.{M, ◌>>=◌, ◌>>◌, refuse_if, query, exec, message}
use leadflow_v3_server.Users.{found_or}
use leadflow_v3_server.Leads.Assign.{retell}
use leadflow_v3_server.Leads.Log.{is_lead}
use leadflow_v3_server.Leads.Detail.{LeadDetail, read_lead, get_by_id}

-- A `nil` amount or text clears the column if its `Has` flag is set.
pub record SalesOutcomeInput : Type 0 where
  pub sales_stage : String
  pub initial_payment : Option ℤ
  pub closed_revenue : Option ℤ
  pub executive_notes : Option String
  pub has_stage : Bool
  pub has_payment : Bool
  pub has_revenue : Bool
  pub has_notes : Bool

abbrev pub allowed_sales_outcomes : List String
allowed_sales_outcomes =
    "IN_NEGOTIATION" ∷ "NOT_CONNECTED" ∷ "NO_RESPONSE_FROM_CLIENT" ∷ "CLOSED_WON" ∷ "CLOSED_LOST"
    ∷ []

unfoldable pub is_sales_outcome_stage : String → Bool
is_sales_outcome_stage stage = any (λ s. s == trim_space stage) allowed_sales_outcomes

-- `case "CLOSED_WON", "CLOSED_LOST"`
abbrev pub is_closed_stage : String → Bool
is_closed_stage stage = stage == "CLOSED_WON" || stage == "CLOSED_LOST"

-- The stage that the lead is to have.
abbrev pub wanted_stage : SalesOutcomeInput → String → String
wanted_stage input current = if input.has_stage then trim_space input.sales_stage else current

abbrev pub wanted_revenue : SalesOutcomeInput → LeadRow → Option ℤ
wanted_revenue input l = if input.has_revenue then input.closed_revenue else l.closed_revenue

abbrev pub at_or : Option ℕ → ℕ → ℕ
at_or none now = now
at_or (some at) now = at

-- The four parts of the SET list. What was read before, `l`, supplies the closing time.
abbrev pub set_stage : ℕ → SalesOutcomeInput → LeadRow → String → LeadRow → LeadRow
set_stage now input l stage r =
    if input.has_stage
    then record r {
      sales_stage = some stage;
      closed_at = if is_closed_stage stage then some (at_or l.closed_at now) else none;
    }
    else r

abbrev pub set_payment : SalesOutcomeInput → LeadRow → LeadRow
set_payment input r =
    if input.has_payment then record r { initial_payment = input.initial_payment } else r

abbrev pub set_revenue : SalesOutcomeInput → LeadRow → LeadRow
set_revenue input r =
    if input.has_revenue
    then record r {
      closed_revenue = input.closed_revenue;
      estimated_deal_value = input.closed_revenue;
      deal_currency = "AUD";
    }
    else r

abbrev pub set_notes : SalesOutcomeInput → LeadRow → LeadRow
set_notes input r = if input.has_notes then record r { lost_notes = input.executive_notes } else r

abbrev pub outcome_row : ℕ → SalesOutcomeInput → LeadRow → String → LeadRow → LeadRow
outcome_row now input l stage r = set_notes input (
    set_revenue input
      (set_payment input (set_stage now input l stage (record r { updated_at = now }))))

abbrev pub write_outcome : ℕ → SalesOutcomeInput → String → LeadRow → String → Db → Db
write_outcome now input id l stage d = record d {
  leads = update (is_lead id) (outcome_row now input l stage) d.leads;
}

module _ (id_before : String → String → Bool) (uuid : String) where
  unfoldable pub update_sales_outcome : ℕ → String → SalesOutcomeInput → M LeadDetail
  unfolding is_sales_outcome_stage get_by_id
  update_sales_outcome now id input =
      refuse_if (trim_space id == "") (message "lead id is required")
      >> (if not input.has_stage
            && not input.has_payment
            && not input.has_revenue
            && not input.has_notes
          then get_by_id id_before uuid now id
          else retell (message "lead not found")
              (query (read_lead id) >>= found_or (message "lead not found"))
            >>= λ row.
                refuse_if
                  (input.has_stage && not (is_sales_outcome_stage (trim_space input.sales_stage)))
                  (message "invalid sales outcome")
                >> refuse_if (input.has_payment && given_negative input.initial_payment)
                    (message "initial payment cannot be negative")
                >> refuse_if (input.has_revenue && given_negative input.closed_revenue)
                    (message "closed revenue cannot be negative")
                >> refuse_if
                    (wanted_stage input row.1 == "CLOSED_WON"
                      && not (given_positive (wanted_revenue input row.0)))
                    (message "closed revenue is required when outcome is Closed")
                >> exec (λ d. count (is_lead id) d.leads)
                    (write_outcome now input id row.0 (wanted_stage input row.1))
                >>= λ rows.
                    refuse_if (eqb rows 0) (message "lead not found")
                    >> get_by_id id_before uuid now id)
