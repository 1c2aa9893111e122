-- ===== src/Access/Tests.antt =====
-- handlers.go and user_admin.go on a small workspace.
use leadflow_v3_server.Base.{true, none, some, ◌≡◌, ◌⊎◌, refl, trim_space, if◌then◌else◌}
use leadflow_v3_server.Roles.{
  role_superadmin, role_main_team_lead, role_sales_executive, is_main_team_lead, lead_team_scope_id,
  can_view_lead_data, can_act_on_user, same_team_id, trimmed,
}
use leadflow_v3_server.Db.Samples.{calm, seller}
use leadflow_v3_server.Access.{
  AuthUser, granted, not_found, LeadListParams, apply_actor_lead_scope, require_lead_access,
  actor_may_manage_target,
}
use leadflow_v3_server.Access.Agreement.{require_lead_access-bulk_scope, bulk_reaches}
use leadflow_v3_server.Access.Forced.{
  IsForced, apply_actor_lead_scope-IsForced, actor_may_manage_target-granted,
}

abbrev captain_user : AuthUser
captain_user = record {
  id = "captain";
  email = "a@b.c";
  name = "";
  role = role_main_team_lead;
  team_id = some "red";
  analyst_team_name = none;
  session_id = "s";
}

require_lead_access-bulk_scope_example :
    require_lead_access (λ s. s) (some captain_user) "one" calm
    ≡ (if bulk_reaches (λ s. s) captain_user "one" calm.db then granted else not_found)
unfolding trim_space can_view_lead_data is_main_team_lead lead_team_scope_id
require_lead_access-bulk_scope_example =
    require_lead_access-bulk_scope (λ s. s) captain_user "one" calm refl refl refl refl refl refl

abbrev asked_for : LeadListParams
asked_for = record {
  filter = "";
  sort = "";
  query_text = "";
  field = "";
  cursor = "";
  limit = 50;
  country = "";
  city = "";
  team_id = "blue";
  analyst_id = "";
  sales_exec_id = "";
  manager_id = "";
  analyst_team_lead_id = "";
  analyst_team_name = "";
  source = "";
  portal = "";
  meta_profile = "";
  status = "";
  stage = "";
  service_line = "";
  qualification_reason = "";
  added_from = "";
  added_to = "";
}

apply_actor_lead_scope-IsForced_example :
    IsForced captain_user (apply_actor_lead_scope (some captain_user) asked_for)
unfolding trim_space
apply_actor_lead_scope-IsForced_example =
    apply_actor_lead_scope-IsForced captain_user asked_for refl

actor_may_manage_target-granted_example :
    (role_main_team_lead ≡ role_superadmin)
    ⊎ ((can_act_on_user role_main_team_lead seller.role ≡ true)
        × (is_main_team_lead role_main_team_lead ≡ true
            → (seller.role ≡ role_sales_executive)
              × (same_team_id seller.team_id (some (trimmed (some "red"))) ≡ true)))
unfolding actor_may_manage_target can_act_on_user is_main_team_lead lead_team_scope_id same_team_id
    trim_space
actor_may_manage_target-granted_example = actor_may_manage_target-granted captain_user seller refl
