-- ===== src/Leads/Calls.antt =====
-- leads.go, assign.go: the calls that change leads, one after the other, on one handle.

pub mod Tests
use leadflow_v3_server.Base.{
  ℕ, String, Bool, true, false, List, [], ◌∷◌, ◌==◌, ◌≡◌, refl, sym, ap, ◌∙◌, some, none, All,
  trim_space, false≢true, Option,
}
use leadflow_v3_server.Db.{Conn, LeadRow}
use leadflow_v3_server.Db.Outcomes.{Leaves}
use leadflow_v3_server.Leads.Visibility.{LeadScope}
use leadflow_v3_server.Leads.Assign.{
  Plan, AssignLeadInput, assigned_row, assign_leads, is_lead_kind,
}
use leadflow_v3_server.Leads.Delete.{delete_leads}
use leadflow_v3_server.Leads.Detail.{get_by_id, closed_label}
use leadflow_v3_server.Leads.Outcome.{SalesOutcomeInput, update_sales_outcome}
use leadflow_v3_server.Leads.Status.{update_qualification_status, mark_not_appropriate}
use leadflow_v3_server.Leads.Edit.{CreateLeadInput, update_lead}
use leadflow_v3_server.Leads.Edit.Create.{create_lead}
use leadflow_v3_server.Leads.Sound.{IsSound, IsSettled}
use leadflow_v3_server.Leads.Sound.Reading.{get_by_id-Leaves}
use leadflow_v3_server.Leads.Sound.Statuses.{update_qualification_status-Leaves}
use leadflow_v3_server.Leads.Sound.Marks.{mark_not_appropriate-Leaves}
use leadflow_v3_server.Leads.Sound.Outcomes.{update_sales_outcome-Leaves}
use leadflow_v3_server.Leads.Sound.Edits.{update_lead-Leaves}
use leadflow_v3_server.Leads.Sound.Created.{create_lead-Leaves}
use leadflow_v3_server.Leads.Sound.Removals.{delete_leads-Leaves}
use leadflow_v3_server.Leads.Sound.Assignments.{assign_leads-Leaves}

-- A call with its arguments, the time of the clock and the ids that are drawn for it.
pub data Call : Type 0 where
  create : String → String → String → ℕ → CreateLeadInput → Call
  edit : String → ℕ → String → CreateLeadInput → Call
  patch : String → ℕ → String → String → String → Call
  mark : String → ℕ → String → String → String → Call
  outcome : String → ℕ → String → SalesOutcomeInput → Call
  read : String → ℕ → String → Call
  assign : (String → String) → ℕ → AssignLeadInput → Call
  remove : List String → LeadScope → Call

-- A new lead has a trimmed id that is not blank, as a UUID is; leads are given to members.
abbrev pub IsProper : Call → Type 0
IsProper (create lead_id handoff_id log_id now input) =
    (trim_space lead_id ≡ lead_id) × ((lead_id == "") ≡ false)
IsProper (edit uuid now id input) = Unit
IsProper (patch uuid now id status actor_id) = Unit
IsProper (mark uuid now id reason actor_id) = Unit
IsProper (outcome uuid now id input) = Unit
IsProper (read uuid now id) = Unit
IsProper (assign uuid now input) = is_lead_kind input.kind ≡ false
IsProper (remove ids scope) = Unit

module _ (fold_key upper_key : String → String) (id_before : String → String → Bool) where
  -- The handle after a call, whether it succeeds or not.
  unfoldable pub after_call : Call → Conn → Conn
  unfolding create_lead update_lead update_qualification_status mark_not_appropriate
      update_sales_outcome get_by_id assign_leads delete_leads
  after_call (create lead_id handoff_id log_id now input) c =
      (create_lead lead_id handoff_id log_id now input c).1
  after_call (edit uuid now id input) c = (update_lead uuid now id input c).1
  after_call (patch uuid now id status actor_id) c =
      (update_qualification_status uuid now id status actor_id c).1
  after_call (mark uuid now id reason actor_id) c =
      (mark_not_appropriate id_before uuid now id reason actor_id c).1
  after_call (outcome uuid now id input) c = (update_sales_outcome id_before uuid now id input c).1
  after_call (read uuid now id) c = (get_by_id id_before uuid now id c).1
  after_call (assign uuid now input) c = (assign_leads fold_key upper_key uuid now input c).1
  after_call (remove ids scope) c = (delete_leads fold_key ids scope c).1

  unfoldable pub after_calls : List Call → Conn → Conn
  unfolding after_call
  after_calls [] c = c
  after_calls (call ∷ calls) c = after_calls calls (after_call call c)

  after_call-IsSound :
      (call : Call) (c : Conn) → IsProper call → IsSound c.db → IsSound (after_call call c).db
  unfolding after_call Leaves
  after_call-IsSound (create lead_id handoff_id log_id now input) c h s =
      create_lead-Leaves lead_id handoff_id log_id now input h.0 h.1 c.db s c refl
  after_call-IsSound (edit uuid now id input) c h s =
      update_lead-Leaves uuid now id input c.db s c refl
  after_call-IsSound (patch uuid now id status actor_id) c h s =
      update_qualification_status-Leaves uuid now id status actor_id c.db s c refl
  after_call-IsSound (mark uuid now id reason actor_id) c h s =
      mark_not_appropriate-Leaves id_before uuid now id reason actor_id c.db s c refl
  after_call-IsSound (outcome uuid now id input) c h s =
      update_sales_outcome-Leaves id_before uuid now id input c.db s c refl
  after_call-IsSound (read uuid now id) c h s = get_by_id-Leaves id_before uuid now id c.db s c refl
  after_call-IsSound (assign uuid now input) c h s =
      assign_leads-Leaves fold_key upper_key uuid now input h c.db s c refl
  after_call-IsSound (remove ids scope) c h s = delete_leads-Leaves fold_key ids scope c.db s c refl

  -- Whatever calls are made one after the other, with whatever arguments and answers of the server, errors
  -- in the middle of a transaction included, a database whose rows are sound stays so: the ids of the leads
  -- are a key and trimmed, a lead that has entries in the status log has one that says the status of its row,
  -- a lead has a closing time exactly in a closed stage, and a won one has a positive revenue. A creation draws
  -- a trimmed id that is not blank; an assignment is one to a member.
  pub after_calls-IsSound :
      (calls : List Call) (c : Conn)
      → All IsProper calls
      → IsSound c.db
      → IsSound (after_calls calls c).db
  unfolding after_calls
  after_calls-IsSound [] c h s = s
  after_calls-IsSound (call ∷ calls) c h s =
      after_calls-IsSound calls (after_call call c) h.1 (after_call-IsSound call c h.0 s)

-- A lead with a closing time that `AssignLeads` hands to a team lead keeps the closing time in its new open
-- stage: it is not settled, and the detail still labels it "Closed".
pub assigned_row-stale :
    (p : Plan) (l : LeadRow) (at : ℕ)
    → p.to_lead ≡ true
    → l.closed_at ≡ some at
    → ((assigned_row p l).sales_stage ≡ some "WITH_TEAM_LEAD")
      × (closed_label (assigned_row p l).closed_at "WITH_TEAM_LEAD" ≡ "Closed")
      × (IsSettled (assigned_row p l) → ⊥)
unfolding closed_label trim_space
assigned_row-stale p l at t e = rw (t, e) (refl, refl, λ h. false≢true (sym h.0))
