-- ===== src/Leads/Assign.antt =====
-- assign.go, `AssignLeads`, and leads.go `defaultCreatorID`. `fold_key` and `upper_key` stand for
-- PostgreSQL's LOWER(BTRIM(…)) and UPPER(BTRIM(…)), `uuid` for the ids of the log entries. The display
-- text of an assignment's hand-over (`formatHandoff`) is kept as its action and detail.
pub mod Rows
pub mod Steps
pub mod Promise
pub mod Tests
use Prim.Native.String.{◌++◌}
use leadflow_v3_server.Base.{
  ℕ, ◌+◌, String, Option, none, some, Bool, true, false, ◌&&◌, ◌||◌, not, List, [], ◌∷◌, ◌==◌, any,
  all, count, find, keep, update, length, map, ltb, eqb, trim_space, if◌then◌else◌,
}
use leadflow_v3_server.Roles.{
  role_superadmin, role_main_team_lead, role_analyst_team_lead, role_sales_executive,
}
use leadflow_v3_server.Qualification.{
  assignable_qualification_codes, is_assignable_qualification, is_listed,
}
use leadflow_v3_server.Db.{Db, Conn, UserRow, LeadRow, TeamRow, HandoffRow}
use leadflow_v3_server.Db.Statements.{
  Error, M, pure, fail, ◌>>=◌, ◌>>◌, refuse_if, query, exec, transact, message, continue, Result,
  ok, err,
}
use leadflow_v3_server.Users.{has_id, is_role, found_or}
use leadflow_v3_server.Users.Deletion.{is_some_id, earliest, is_stage}
use leadflow_v3_server.Leads.Visibility.{LeadScope, in_scope}

pub record AssignLeadInput : Type 0 where
  pub lead_ids : List String
  pub assignee_id : String
  pub kind : String
  pub actor_id : String
  pub scope : LeadScope

pub record LeadAssignmentResult : Type 0 where
  pub lead_id : String
  pub team : String
  pub sales_executive : String
  pub action : String
  pub detail : String

pub record AssignLeadsResult : Type 0 where
  pub updated : ℕ
  pub assignments : List LeadAssignmentResult

abbrev pub max_bulk_lead_ids : ℕ
max_bulk_lead_ids = 100

-- The loop that trims, drops blanks and repetitions; `seen` is the set so far.
unfoldable pub clean_ids : List String → List String → List String
clean_ids seen [] = []
clean_ids seen (raw ∷ rest) =
    let id = trim_space raw in
    let skipped = clean_ids seen rest in
    let kept = id ∷ clean_ids (id ∷ seen) rest in
    if id == "" then skipped else if any (λ x. x == id) seen then skipped else kept

abbrev pub retold : {A : Type 0} → Error → Result A × Conn → Result A × Conn
retold e (ok a, c) = (ok a, c)
retold e (err x, c) = (err e, c)

-- The error of a statement, told in other words.
unfoldable pub retell : {A : Type 0} → Error → M A → M A
retell e m c = retold e (m c)

abbrev pub tried : {A : Type 0} → Result (Option A) × Conn → Result (Option A) × Conn
tried (ok o, c) = (ok o, c)
tried (err x, c) = (ok none, c)

-- A statement whose failure is passed over.
unfoldable pub attempt : {A : Type 0} → M (Option A) → M (Option A)
attempt m c = tried (m c)

unfoldable pub default_creator_id : M String
default_creator_id = query (λ d. earliest none (keep (is_role role_superadmin) d.users)) >>= λ o.
    found_or (message "no actor available") o >>= λ u. pure u.id

unfoldable pub resolve_actor : String → M String
unfolding default_creator_id
resolve_actor raw =
    if trim_space raw == ""
    then retell (message "no actor available") default_creator_id
    else pure (trim_space raw)

abbrev pub is_lead_kind : String → Bool
is_lead_kind kind = kind == "team-lead"

-- `teamID == nil || strings.TrimSpace(*teamID) != scope`
abbrev pub off_scope : String → Option String → Bool
off_scope scope none = true
off_scope scope (some t) = not (trim_space t == scope)

unfoldable pub check_assignee : AssignLeadInput → UserRow → M (Unit {0})
check_assignee input a =
    refuse_if
      (not (trim_space input.scope.team_id == "")
        && off_scope (trim_space input.scope.team_id) a.team_id)
      (message "assignee is not on your team")
    >> (if is_lead_kind input.kind
        then refuse_if
            (not (a.role == role_main_team_lead) && not (a.role == role_analyst_team_lead))
            (message "assignee is not a team lead")
        else refuse_if (not (a.role == role_sales_executive))
            (message "assignee is not a team member"))

-- The main team lead of the assignee's team, for a member.
unfoldable pub lead_of_team : Bool → Option String → M (Option UserRow)
lead_of_team true team_id = pure none
lead_of_team false none = pure none
lead_of_team false (some team) = attempt (
    query (λ d.
      earliest none
        (keep (λ u. is_role role_main_team_lead u && is_some_id team u.team_id) d.users)))

unfoldable pub resolve_lead : AssignLeadInput → UserRow → M (Option UserRow)
unfolding lead_of_team
resolve_lead input a = lead_of_team (is_lead_kind input.kind) a.team_id

-- What each lead of the call is set to.
pub record Plan : Type 0 where
  pub to_lead : Bool
  pub assignee : UserRow
  pub main_lead : Option UserRow
  pub team_label : String
  pub actor_id : String
  pub now : ℕ

abbrev pub early_stage : Option String → Bool
early_stage none = true
early_stage (some s) = s == "PRE_SALES" || s == "WITH_TEAM_LEAD" || s == "NOT_CONNECTED" || s == ""

abbrev pub lead_or_old : Option UserRow → Option String → Option String
lead_or_old none old = old
lead_or_old (some u) old = some u.id

-- The SET lists of the two UPDATEs.
abbrev pub to_team_lead : Plan → LeadRow → LeadRow
to_team_lead p l = record l {
  assigned_main_team_lead_id = some p.assignee.id;
  team_id = p.assignee.team_id;
  assigned_sales_exec_id = none;
  exec_assigned_at = none;
  exec_deadline_at = none;
  sales_stage = some "WITH_TEAM_LEAD";
  updated_at = p.now;
}

abbrev pub to_member : Plan → LeadRow → LeadRow
to_member p l = record l {
  assigned_sales_exec_id = some p.assignee.id;
  team_id = p.assignee.team_id;
  assigned_main_team_lead_id = lead_or_old p.main_lead l.assigned_main_team_lead_id;
  exec_assigned_at = some p.now;
  sales_stage = if early_stage l.sales_stage then some "WITH_EXECUTIVE" else l.sales_stage;
  updated_at = p.now;
}

abbrev pub assigned_row : Plan → LeadRow → LeadRow
assigned_row p l = if p.to_lead then to_team_lead p l else to_member p l

abbrev pub name_or_dash : Option UserRow → String
name_or_dash none = "—"
name_or_dash (some u) = if trim_space u.name == "" then "—" else u.name

abbrev pub plan_action : Plan → String
plan_action p = if p.to_lead then "ROUTED_TO_MAIN_TEAM" else "DIRECT_ASSIGNED_TO_EXECUTIVE_BY_ATL"

abbrev pub plan_detail : Plan → String
plan_detail p =
    if p.to_lead
    then "Main team lead: " ++ p.assignee.name ++ " · Team: " ++ p.team_label
    else "Main team lead: "
      ++ name_or_dash p.main_lead
      ++ " · Team: "
      ++ p.team_label
      ++ " · Sales executive: "
      ++ p.assignee.name
      ++ " ("
      ++ p.assignee.email
      ++ ")"

abbrev pub assignment : Plan → String → LeadAssignmentResult
assignment p id = record {
  lead_id = id;
  team = p.team_label;
  sales_executive = if p.to_lead then "—" else p.assignee.name;
  action = plan_action p;
  detail = plan_detail p;
}

module _ (fold_key upper_key : String → String) (uuid : String → String) where
  -- `WHERE id = $1 AND UPPER(BTRIM("qualificationStatus")) IN (…)`
  abbrev pub is_target : String → LeadRow → Bool
  is_target id l =
      l.id == id && is_listed (upper_key l.qualification_status) assignable_qualification_codes

  abbrev pub write_assignment : Plan → String → Db → Db
  write_assignment p id d = record d { leads = update (is_target id) (assigned_row p) d.leads }

  abbrev pub log_handoff : Plan → String → Db → Db
  log_handoff p id d = record d {
    handoffs =
        record {
          id = uuid id;
          created_at = p.now;
          lead_id = id;
          action = plan_action p;
          actor_id = p.actor_id;
          detail = plan_detail p;
        }
        ∷ d.handoffs;
  }

  abbrev pub only_qualified : Error
  only_qualified = message "only qualified leads can be assigned to a team or members"

  -- The loop over the leads.
  unfoldable pub assign_each : Plan → List String → M (List LeadAssignmentResult)
  assign_each p [] = pure []
  assign_each p (id ∷ ids) =
      exec (λ d. count (is_target id) d.leads) (write_assignment p id) >>= λ rows.
      refuse_if (eqb rows 0) only_qualified
      >> exec (λ _. tt) (log_handoff p id)
      >> assign_each p ids
      >>= λ rest. pure (assignment p id ∷ rest)

  -- The locked rows, as the map from id to status.
  abbrev pub locked : AssignLeadInput → List String → Db → List LeadRow
  locked input ids d =
      keep (λ l. any (λ x. x == l.id) ids && in_scope fold_key input.scope d.users l) d.leads

  abbrev pub status_of : String → List LeadRow → String
  status_of id [] = ""
  status_of id (l ∷ ls) = if l.id == id then l.qualification_status else status_of id ls

  unfoldable pub assign_body : AssignLeadInput → List String → Plan → M AssignLeadsResult
  unfolding assign_each
  assign_body input ids p = query (locked input ids) >>= λ rows.
      refuse_if (not (eqb (length rows) (length ids))) (message "one or more leads were not found")
      >> refuse_if (not (all (λ id. is_assignable_qualification (status_of id rows)) ids))
          only_qualified
      >> assign_each p ids
      >>= λ done. pure (record { updated = length done; assignments = done })

  abbrev pub team_of : UserRow → Db → Option TeamRow
  team_of a d = elim a.team_id [ none ↦ none | some t ↦ find (λ r. r.id == t) d.teams ]

  -- The assignee with the LEFT JOIN of its team.
  abbrev pub assignee_row : String → Db → Option (UserRow × Option TeamRow)
  assignee_row id d = elim (find (has_id id) d.users) [
    | none ↦ none
    | some a ↦ some (a, team_of a d)
  ]

  abbrev pub label_of : Option TeamRow → String
  label_of none = "Unassigned team"
  label_of (some t) = if trim_space t.name == "" then "Unassigned team" else trim_space t.name

  unfoldable pub assign_leads : ℕ → AssignLeadInput → M AssignLeadsResult
  unfolding clean_ids resolve_actor check_assignee resolve_lead assign_body
  assign_leads now input =
      let ids = clean_ids [] input.lead_ids in
      refuse_if (eqb (length input.lead_ids) 0) (message "no leads selected")
      >> refuse_if (trim_space input.assignee_id == "") (message "assignee is required")
      >> refuse_if (not (input.kind == "team-lead") && not (input.kind == "member"))
          (message "invalid assign kind")
      >> refuse_if (eqb (length ids) 0) (message "no leads selected")
      >> refuse_if (ltb max_bulk_lead_ids (length ids))
          (message "too many leads selected (max 100)")
      >> resolve_actor input.actor_id
      >>= λ actor.
          retell (message "assignee not found")
            (query (assignee_row input.assignee_id) >>= found_or (message "assignee not found"))
          >>= λ row. check_assignee input row.0 >> resolve_lead input row.0 >>= λ lead. transact (
              assign_body input ids (record {
                to_lead = is_lead_kind input.kind;
                assignee = row.0;
                main_lead = lead;
                team_label = label_of row.1;
                actor_id = actor;
                now = now;
              }))
