-- ===== src/Access.antt =====
-- handlers.go, `applyActorLeadScope` and `requireLeadAccess`; handlers_leads_http.go, the scope that the
-- bulk handlers pass on; user_admin.go, `actorMayManageTarget`. A context is the signed-in user, if any.
pub mod Agreement
pub mod Forced
mod Tests
use leadflow_v3_server.Base.{
  ℕ, String, Option, none, some, Bool, true, false, not, ◌&&◌, ◌||◌, ◌==◌, trim_space,
  if◌then◌else◌,
}
use leadflow_v3_server.Roles.{
  role_superadmin, role_sales_executive, is_main_team_lead, can_view_lead_data, can_act_on_user,
  lead_data_owner_id, lead_team_scope_id, lead_sales_exec_scope_id, lead_analyst_team_lead_id,
  deref_team_name, same_team_id,
}
use leadflow_v3_server.Db.{Db, UserRow, Conn}
use leadflow_v3_server.Db.Statements.{M, Result, ok, err, pure, query}
use leadflow_v3_server.Leads.Visibility.{
  LeadScope, is_created_by, is_on_team, is_assigned_to_sales_exec, is_created_by_analyst_team,
}

-- auth.go
pub record AuthUser : Type 0 where
  pub id : String
  pub email : String
  pub name : String
  pub role : String
  pub team_id : Option String
  pub analyst_team_name : Option String
  pub session_id : String

-- What a guard of a handler decides: to go on, or the status and text it wrote.
pub data Access : Type 0 where
  granted : Access
  denied : ℕ → String → Access

unfoldable pub actor_lead_owner_id : Option AuthUser → String
actor_lead_owner_id none = ""
actor_lead_owner_id (some a) = lead_data_owner_id a.role a.id

unfoldable pub actor_lead_team_id : Option AuthUser → String
actor_lead_team_id none = ""
actor_lead_team_id (some a) = lead_team_scope_id a.role a.team_id

unfoldable pub actor_lead_sales_exec_id : Option AuthUser → String
actor_lead_sales_exec_id none = ""
actor_lead_sales_exec_id (some a) = lead_sales_exec_scope_id a.role a.id

unfoldable pub actor_analyst_team_scope : Option AuthUser → String × String
actor_analyst_team_scope none = ("", "")
actor_analyst_team_scope (some a) =
    if lead_analyst_team_lead_id a.role a.id == ""
    then ("", "")
    else (lead_analyst_team_lead_id a.role a.id, deref_team_name a.analyst_team_name)

abbrev pub is_main_lead_actor : Option AuthUser → Bool
is_main_lead_actor none = false
is_main_lead_actor (some a) = is_main_team_lead a.role

-- leads.go
pub record LeadListParams : Type 0 where
  pub filter : String
  pub sort : String
  pub query_text : String
  pub field : String
  pub cursor : String
  pub limit : ℕ
  pub country : String
  pub city : String
  pub team_id : String
  pub analyst_id : String
  pub sales_exec_id : String
  pub manager_id : String
  pub analyst_team_lead_id : String
  pub analyst_team_name : String
  pub source : String
  pub portal : String
  pub meta_profile : String
  pub status : String
  pub stage : String
  pub service_line : String
  pub qualification_reason : String
  pub added_from : String
  pub added_to : String

abbrev pub no_team : String
no_team = "00000000-0000-0000-0000-000000000000"

unfoldable pub apply_actor_lead_scope : Option AuthUser → LeadListParams → LeadListParams
unfolding actor_lead_owner_id actor_lead_sales_exec_id actor_analyst_team_scope actor_lead_team_id
apply_actor_lead_scope ctx p =
    let owner = actor_lead_owner_id ctx in
    let exec_id = actor_lead_sales_exec_id ctx in
    let atl = actor_analyst_team_scope ctx in
    let team = actor_lead_team_id ctx in
    record p {
      analyst_id = if owner == "" then p.analyst_id else owner;
      sales_exec_id = if exec_id == "" then p.sales_exec_id else exec_id;
      analyst_team_lead_id = if atl.0 == "" then p.analyst_team_lead_id else atl.0;
      analyst_team_name = if atl.0 == "" then p.analyst_team_name else atl.1;
      manager_id = if atl.0 == "" then p.manager_id else "";
      team_id =
          if not (team == "") then team else if is_main_lead_actor ctx then no_team else p.team_id;
    }

-- The arguments that `deleteLeads` and `handleAssignLeads` pass to the store.
unfoldable pub bulk_scope : AuthUser → LeadScope
unfolding actor_analyst_team_scope
bulk_scope a = record {
  created_by_id = lead_data_owner_id a.role a.id;
  team_id = lead_team_scope_id a.role a.team_id;
  sales_exec_id = lead_sales_exec_scope_id a.role a.id;
  analyst_team_lead_id = (actor_analyst_team_scope (some a)).0;
  analyst_team_name = (actor_analyst_team_scope (some a)).1;
}

unfoldable pub require_lead_data_access : Option AuthUser → Access
require_lead_data_access none = denied 401 "authentication required"
require_lead_data_access (some a) =
    if not (can_view_lead_data a.role)
    then denied 403 "lead data is not available for this role"
    else granted

abbrev pub not_found : Access
not_found = denied 404 "lead not found"

-- `if err != nil { 500 }; if !ok { 404 }`
abbrev pub verdict : Result Bool × Conn → Access
verdict (err e, c) = denied 500 "failed to authorize lead access"
verdict (ok true, c) = granted
verdict (ok false, c) = not_found

-- A blank id is answered without a statement.
abbrev pub asked : String → String → (Db → Bool) → M Bool
asked lead_id actor_id test =
    if trim_space lead_id == "" || trim_space actor_id == "" then pure false else query test

module _ (fold_key : String → String) where
  unfoldable pub scoped_lead_access : Option AuthUser → String → Conn → Access
  unfolding actor_lead_owner_id actor_lead_sales_exec_id actor_analyst_team_scope actor_lead_team_id
  scoped_lead_access ctx lead_id c =
      let owner = actor_lead_owner_id ctx in
      let exec_id = actor_lead_sales_exec_id ctx in
      let atl = actor_analyst_team_scope ctx in
      let team = actor_lead_team_id ctx in
      if not (owner == "")
      then verdict (asked lead_id owner (is_created_by lead_id owner) c)
      else if not (exec_id == "")
      then verdict (asked lead_id exec_id (is_assigned_to_sales_exec lead_id exec_id) c)
      else if not (atl.0 == "")
      then verdict (asked lead_id atl.0 (is_created_by_analyst_team fold_key lead_id atl.0 atl.1) c)
      else if not (team == "")
      then verdict (asked lead_id team (is_on_team lead_id team) c)
      else if is_main_lead_actor ctx
      then not_found
      else granted

  -- The answer only; the statement changes nothing.
  unfoldable pub require_lead_access : Option AuthUser → String → Conn → Access
  unfolding require_lead_data_access scoped_lead_access
  require_lead_access ctx lead_id c = elim (require_lead_data_access ctx) [
    | granted ↦ scoped_lead_access ctx lead_id c
    | denied status text ↦ denied status text
  ]

unfoldable pub actor_may_manage_target : AuthUser → UserRow → Access
actor_may_manage_target a target =
    let team = lead_team_scope_id a.role a.team_id in
    if a.role == role_superadmin
    then granted
    else if not (can_act_on_user a.role target.role)
    then denied 403 "you cannot manage this user"
    else if not (is_main_team_lead a.role)
    then granted
    else if team == ""
    then denied 403 "your account is not linked to a team"
    else if not (target.role == role_sales_executive)
        || not (same_team_id target.team_id (some team))
    then denied 404 "user not found"
    else granted
