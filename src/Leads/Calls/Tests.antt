-- ===== src/Leads/Calls/Tests.antt =====
-- leads.go: calls on a small workspace.
use leadflow_v3_server.Base.{String, some, none, true, false, [], ◌∷◌, ◌≡◌, refl, trim_space, Bool}
use leadflow_v3_server.Base.ℤ.{pos}
use leadflow_v3_server.Db.{Db}
use leadflow_v3_server.Db.Reply.{fine, failed}
use leadflow_v3_server.Base.{List, ℕ}
use leadflow_v3_server.Db.{LeadRow, QualificationRow}
use leadflow_v3_server.Db.Samples.{captain}
use leadflow_v3_server.Db.Statements.{ok, ◌>>◌, ◌>>=◌, refuse_if, transact, exec, query}
use leadflow_v3_server.Leads.Assign.{assigned_row}
use leadflow_v3_server.Leads.Detail.{closed_label}
use leadflow_v3_server.Leads.Sound.{IsSettled}
use leadflow_v3_server.Leads.Edit.Create.{create_lead}
use leadflow_v3_server.Leads.Log.History.{list_qualification_history}
use leadflow_v3_server.Leads.Log.Timeline.{IsTimeline, list_qualification_history-IsTimeline}
use leadflow_v3_server.Db.Samples.{workspace, calm, lead_one}
use leadflow_v3_server.Leads.Sound.{IsSound, IsSound-of}
use leadflow_v3_server.Leads.Assign.{Plan}
use leadflow_v3_server.Leads.Edit.{CreateLeadInput}
use leadflow_v3_server.Leads.Outcome.{SalesOutcomeInput}
use leadflow_v3_server.Leads.Calls.{
  Call, create, patch, outcome, read, after_calls, after_calls-IsSound, assigned_row-stale,
}

abbrev pub inquiry : CreateLeadInput
inquiry = record {
  full_name = " Ann ";
  email = none;
  phone = none;
  country = none;
  city = none;
  portal_website = none;
  source = "Meta WhatsApp";
  source_meta_profile_name = none;
  language = none;
  client_profile = none;
  qualification_status = "Qualified";
  lead_score = none;
  created_at = none;
  notes = none;
  first_client_message_at = none;
  first_agent_message_at = none;
  first_response_minutes = none;
  first_response_proof_path = none;
  created_by_id = "";
}

abbrev sale : SalesOutcomeInput
sale = record {
  sales_stage = "CLOSED_WON";
  initial_payment = none;
  closed_revenue = some (pos 10);
  executive_notes = none;
  has_stage = true;
  has_payment = false;
  has_revenue = true;
  has_notes = false;
}

pub workspace-IsSound : IsSound workspace
unfolding trim_space
workspace-IsSound =
    IsSound-of workspace ((refl, tt), (tt, tt))
      ((refl, (λ h. h), (refl, λ h. cc)), ((refl, (λ h. h), (refl, λ h. cc)), tt))

abbrev never : String → String → Bool
never a b = false

-- A creation, a failing change of the status, a sale, and a read.
abbrev morning : List Call
morning =
    create "three" "h3" "q3" 50 inquiry
    ∷ patch "q4" 60 "three" "Not Qualified" "root"
    ∷ outcome "q5" 70 "one" sale
    ∷ read "q6" 80 "two"
    ∷ []

after_calls-IsSound_example :
    IsSound
      (after_calls
        (λ s. s)
        (λ s. s)
        never
        morning
        (record { db = workspace; replies = fine ∷ fine ∷ failed ∷ [] })).db
unfolding trim_space
after_calls-IsSound_example =
    after_calls-IsSound (λ s. s) (λ s. s) never morning
      (record { db = workspace; replies = fine ∷ fine ∷ failed ∷ [] })
      ((refl, refl), (tt, (tt, (tt, tt)))) workspace-IsSound

abbrev to_captain : Plan
to_captain = record {
  to_lead = true;
  assignee = captain;
  main_lead = none;
  team_label = "red";
  actor_id = "root";
  now = 9;
}

abbrev sold : LeadRow
sold = record lead_one { sales_stage = some "CLOSED_WON"; closed_at = some 5 }

assigned_row-stale_example :
    ((assigned_row to_captain sold).sales_stage ≡ some "WITH_TEAM_LEAD")
    × (closed_label (assigned_row to_captain sold).closed_at "WITH_TEAM_LEAD" ≡ "Closed")
    × (IsSettled (assigned_row to_captain sold) → ⊥)
assigned_row-stale_example = assigned_row-stale to_captain sold 5 refl refl

-- The creation succeeds.
create_lead_run : (create_lead "three" "h3" "q3" 50 inquiry calm).0 ≡ ok "three"
unfolding create_lead ◌>>◌ ◌>>=◌ refuse_if transact exec query
create_lead_run = refl

abbrev entry_at : ℕ → String → QualificationRow
entry_at at status = record {
  id = "e";
  lead_id = "one";
  from_status = none;
  to_status = status;
  changed_at = at;
  actor_id = none;
  reason = none;
  source = "update";
}

abbrev storied : Db
storied = record workspace {
  qualification_log = entry_at 70_000_000_000 "QUALIFIED" ∷ entry_at 1 "NOT_QUALIFIED" ∷ [];
}

list_qualification_history-IsTimeline_example :
    IsTimeline
      (trim_space "one")
      storied.qualification_log
      90_000_000_000
      (list_qualification_history never 90_000_000_000 "one" storied)
unfolding trim_space
list_qualification_history-IsTimeline_example =
    list_qualification_history-IsTimeline never 90_000_000_000 "one" storied refl
