-- ===== src/Leads/Assign/Promise.antt =====
-- assign.go, `AssignLeads`: what a successful call promises, and what an error leaves.
use leadflow_v3_server.Base.{
  ◌≤◌, String, some, Bool, true, false, ◌&&◌, not, List, [], ◌==◌, ◌≡◌, all, find, keep, length,
  All, trim_space, map,
}
use leadflow_v3_server.Roles.{role_main_team_lead, role_analyst_team_lead, role_sales_executive}
use leadflow_v3_server.Qualification.{is_assignable_qualification}
use leadflow_v3_server.Db.{Db}
use leadflow_v3_server.Users.{has_id}
use leadflow_v3_server.Users.Deletion.Forgotten.{lead_ids}
use leadflow_v3_server.Leads.Assign.{
  AssignLeadInput, AssignLeadsResult, Plan, clean_ids, is_lead_kind, off_scope, locked, status_of,
}
use leadflow_v3_server.Leads.Assign.Rows.{AllPlaced, chosen, marks, marked, Looped}

-- The role that the kind of the call asks of the assignee.
abbrev pub FitsKind : Bool → String → Type 0
FitsKind true role =
    (not (role == role_main_team_lead) && not (role == role_analyst_team_lead)) ≡ false
FitsKind false role = (role == role_sales_executive) ≡ true

-- What the log calls an assignment of that kind.
abbrev pub action_of : Bool → String
action_of true = "ROUTED_TO_MAIN_TEAM"
action_of false = "DIRECT_ASSIGNED_TO_EXECUTIVE_BY_ATL"

module _ (fold_key upper_key : String → String) (uuid : String → String) where
  -- The database after a successful call of `AssignLeads`.
  pub record Assigned (input : AssignLeadInput) (before : Db) (r : AssignLeadsResult) (d : Db)
      : Type 0 where
    pub plan : Plan
    pub to_lead : plan.to_lead ≡ is_lead_kind input.kind
    pub assignee : find (has_id input.assignee_id) before.users ≡ some plan.assignee
    pub fits : FitsKind (is_lead_kind input.kind) plan.assignee.role
    pub on_team :
        (not (trim_space input.scope.team_id == "")
          && off_scope (trim_space input.scope.team_id) plan.assignee.team_id)
        ≡ false
    pub bounded : length (clean_ids [] input.lead_ids) ≤ 100
    pub found :
        length (locked fold_key upper_key uuid input (clean_ids [] input.lead_ids) before)
        ≡ length (clean_ids [] input.lead_ids)
    pub qualified :
        all
          (λ id. is_assignable_qualification (
            status_of fold_key upper_key uuid id
              (locked fold_key upper_key uuid input (clean_ids [] input.lead_ids) before)))
          (clean_ids [] input.lead_ids)
        ≡ true
    pub each : AllPlaced plan (chosen (clean_ids [] input.lead_ids)) d.leads
    pub others :
        (t : String → Bool)
        → All (λ i. t i ≡ false) (clean_ids [] input.lead_ids)
        → keep (λ l. t l.id) d.leads ≡ keep (λ l. t l.id) before.leads
    pub kept : lead_ids d ≡ lead_ids before
    pub updated : r.updated ≡ length (clean_ids [] input.lead_ids)
    pub named : map (λ a. a.lead_id) r.assignments ≡ clean_ids [] input.lead_ids
    pub actor :
        (trim_space input.actor_id == "") ≡ false → plan.actor_id ≡ trim_space input.actor_id
    pub logged :
        marks d
        ≡ marked
            (action_of (is_lead_kind input.kind))
            plan.actor_id
            (clean_ids [] input.lead_ids)
            (marks before)

  -- What the transaction adds to the checks before it.
  record Written (input : AssignLeadInput) (ids : List String) (p : Plan) (before : Db)
      (r : AssignLeadsResult) (d : Db) : Type 0 where
    found : length (locked fold_key upper_key uuid input ids before) ≡ length ids
    qualified :
        all
          (λ id. is_assignable_qualification (
            status_of fold_key upper_key uuid id (locked fold_key upper_key uuid input ids before)))
          ids
        ≡ true
    looped : Looped fold_key upper_key uuid p (λ _. false) ids before r.assignments d
    updated : r.updated ≡ length r.assignments
