-- ===== src/Leads/Visibility.antt =====
-- The row tests of the SQL that narrows leads to an actor: leads.go `analystTeamLeadScopeSQL`, `IsCreatedBy`,
-- `IsOnTeam`, `IsAssignedToSalesExec`, `IsCreatedByAnalystTeam`, and the optional conditions that assign.go
-- adds to its statements. `fold_key` stands for PostgreSQL's LOWER(BTRIM(…)).
use leadflow_v3_server.Base.{
  String, Option, none, some, Bool, ◌&&◌, ◌||◌, not, List, ◌==◌, any, trim_space,
}
use leadflow_v3_server.Roles.{role_lead_analyst}
use leadflow_v3_server.Db.{Db, UserRow, LeadRow}
use leadflow_v3_server.Users.{has_id}
use leadflow_v3_server.Users.Deletion.{is_some_id}

abbrev pub coalesce : Option String → String
coalesce none = ""
coalesce (some s) = s

-- The rows of "User" that the EXISTS of `analystTeamLeadScopeSQL` accepts as creator of a lead.
abbrev pub is_team_creator : (String → String) → String → String → UserRow → Bool
is_team_creator fold_key atl team u =
    has_id atl u
    || (u.role == role_lead_analyst
        && (is_some_id atl u.manager_id
            || (not (team == "") && fold_key (coalesce u.analyst_team_name) == fold_key team)))

abbrev pub is_creator_of : LeadRow → UserRow → Bool
is_creator_of l u = is_some_id u.id l.created_by_id

-- `analystTeamLeadScopeSQL`: no condition for a blank ATL id.
unfoldable pub in_analyst_scope :
    (String → String) → String → String → List UserRow → LeadRow → Bool
in_analyst_scope fold_key raw_atl raw_team users l =
    let atl = trim_space raw_atl in
    let team = trim_space raw_team in
    atl == "" || any (λ u. is_creator_of l u && is_team_creator fold_key atl team u) users

-- The narrowing that a caller passes along; a blank text narrows nothing.
pub record LeadScope : Type 0 where
  pub created_by_id : String
  pub team_id : String
  pub sales_exec_id : String
  pub analyst_team_lead_id : String
  pub analyst_team_name : String

-- `if x := strings.TrimSpace(…); x != "" { … AND column = $n }`
abbrev pub narrows : String → Option String → Bool
narrows raw column = trim_space raw == "" || is_some_id (trim_space raw) column

unfoldable pub in_scope : (String → String) → LeadScope → List UserRow → LeadRow → Bool
unfolding in_analyst_scope
in_scope fold_key s users l =
    narrows s.created_by_id l.created_by_id
    && narrows s.team_id l.team_id
    && narrows s.sales_exec_id l.assigned_sales_exec_id
    && in_analyst_scope fold_key s.analyst_team_lead_id s.analyst_team_name users l

-- `SELECT EXISTS(SELECT 1 FROM "Lead" WHERE id = $1 AND …)`, false when either id is blank.
abbrev pub lead_exists : String → String → (LeadRow → Bool) → Db → Bool
lead_exists lead_id actor_id p d =
    not (lead_id == "") && not (actor_id == "") && any (λ l. l.id == lead_id && p l) d.leads

unfoldable pub is_created_by : String → String → Db → Bool
is_created_by lead_id user_id d =
    let user = trim_space user_id in
    lead_exists (trim_space lead_id) user (λ l. is_some_id user l.created_by_id) d

unfoldable pub is_on_team : String → String → Db → Bool
is_on_team lead_id team_id d =
    let team = trim_space team_id in
    lead_exists (trim_space lead_id) team (λ l. is_some_id team l.team_id) d

unfoldable pub is_assigned_to_sales_exec : String → String → Db → Bool
is_assigned_to_sales_exec lead_id sales_exec_id d =
    let exec_id = trim_space sales_exec_id in
    lead_exists (trim_space lead_id) exec_id (λ l. is_some_id exec_id l.assigned_sales_exec_id) d

unfoldable pub is_created_by_analyst_team : (String → String) → String → String → String → Db → Bool
unfolding in_analyst_scope
is_created_by_analyst_team fold_key lead_id atl team d =
    lead_exists (trim_space lead_id) (trim_space atl) (in_analyst_scope fold_key atl team d.users) d
