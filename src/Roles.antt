-- ===== src/Roles.antt =====
-- roles.go: the role names, who may do what, and the identifiers that narrow an actor's view.
pub mod Ranks
mod Tests
use leadflow_v3_server.Base.{
  String, Option, none, some, Bool, true, false, not, ◌&&◌, ◌||◌, List, [], ◌∷◌, ◌==◌, ◌≡◌, any,
  lookup, trim_space, if◌then◌else◌,
}

abbrev pub role_superadmin : String
role_superadmin = "SUPERADMIN"

abbrev pub role_analyst_team_lead : String
role_analyst_team_lead = "ANALYST_TEAM_LEAD"

abbrev pub role_lead_analyst : String
role_lead_analyst = "LEAD_ANALYST"

abbrev pub role_main_team_lead : String
role_main_team_lead = "MAIN_TEAM_LEAD"

abbrev pub role_sales_executive : String
role_sales_executive = "SALES_EXECUTIVE"

abbrev pub all_roles : List String
all_roles =
    role_superadmin ∷ role_analyst_team_lead ∷ role_lead_analyst ∷ role_main_team_lead
    ∷ role_sales_executive ∷ []

abbrev pub role_labels : List (String × String)
role_labels =
    (role_superadmin, "Superadmin")
    ∷ (role_analyst_team_lead, "Analyst Team Lead")
    ∷ (role_lead_analyst, "Lead Analyst")
    ∷ (role_main_team_lead, "Main Team Lead")
    ∷ (role_sales_executive, "Sales Executive")
    ∷ []

abbrev pub analyst_team_lead_managed_roles : List String
analyst_team_lead_managed_roles =
    role_lead_analyst ∷ role_main_team_lead ∷ role_sales_executive ∷ []

abbrev is_found : Option String → Bool
is_found none = false
is_found (some v) = true

unfoldable pub is_valid_role : String → Bool
unfolding lookup
is_valid_role role = is_found (lookup role role_labels)

abbrev or_else : Option String → String → String
or_else none fallback = fallback
or_else (some label) fallback = label

unfoldable pub role_label : String → String
unfolding lookup
role_label role = or_else (lookup role role_labels) role

unfoldable pub is_analyst_team_lead : String → Bool
is_analyst_team_lead role = role == role_analyst_team_lead

unfoldable pub is_lead_analyst : String → Bool
is_lead_analyst role = role == role_lead_analyst

unfoldable pub is_main_team_lead : String → Bool
is_main_team_lead role = role == role_main_team_lead

unfoldable pub is_sales_executive : String → Bool
is_sales_executive role = role == role_sales_executive

unfoldable pub can_manage_users : String → Bool
unfolding is_main_team_lead
can_manage_users role =
    role == role_superadmin || role == role_analyst_team_lead || is_main_team_lead role

unfoldable pub can_view_users : String → Bool
unfolding can_manage_users
can_view_users role = can_manage_users role

unfoldable pub can_create_users : String → Bool
unfolding can_manage_users
can_create_users role = can_manage_users role

unfoldable pub can_mutate_leads : String → Bool
can_mutate_leads role =
    role == role_superadmin
    || role == role_analyst_team_lead
    || role == role_lead_analyst
    || role == role_main_team_lead
    || role == role_sales_executive

unfoldable pub can_change_qualification : String → Bool
can_change_qualification role =
    role == role_superadmin || role == role_analyst_team_lead || role == role_lead_analyst

unfoldable pub can_create_leads : String → Bool
can_create_leads role =
    role == role_superadmin || role == role_analyst_team_lead || role == role_lead_analyst

unfoldable pub can_edit_lead_profile : String → Bool
can_edit_lead_profile role =
    role == role_superadmin || role == role_analyst_team_lead || role == role_lead_analyst

unfoldable pub can_delete_leads : String → Bool
can_delete_leads role = role == role_superadmin || role == role_analyst_team_lead

unfoldable pub can_update_sales_outcome : String → Bool
can_update_sales_outcome role =
    role == role_superadmin || role == role_analyst_team_lead || role == role_sales_executive

unfoldable pub can_mark_not_appropriate : String → Bool
unfolding is_sales_executive
can_mark_not_appropriate role = is_sales_executive role

unfoldable pub can_assign_to_team_leads : String → Bool
unfolding can_mutate_leads is_sales_executive is_main_team_lead
can_assign_to_team_leads role =
    can_mutate_leads role && not (is_sales_executive role) && not (is_main_team_lead role)

unfoldable pub can_view_lead_data : String → Bool
unfolding is_valid_role
can_view_lead_data role = is_valid_role role

unfoldable pub named_team_required_for_role : String → Bool
named_team_required_for_role role = role == role_main_team_lead || role == role_analyst_team_lead

unfoldable pub sales_team_assignment_required : String → Bool
sales_team_assignment_required role = role == role_sales_executive

-- The switch of `creatableRoles`; a copied slice is the list.
unfoldable pub creatable_roles : String → List String
creatable_roles actor_role =
    if actor_role == role_superadmin
    then all_roles
    else if actor_role == role_analyst_team_lead
    then analyst_team_lead_managed_roles
    else if actor_role == role_main_team_lead
    then role_sales_executive ∷ []
    else []

unfoldable pub visible_user_roles : String → List String
unfolding creatable_roles
visible_user_roles actor_role =
    if actor_role == role_superadmin
    then creatable_roles actor_role
    else if actor_role == role_analyst_team_lead
    then creatable_roles actor_role
    else if actor_role == role_main_team_lead
    then role_sales_executive ∷ []
    else []

unfoldable pub can_create_role : String → String → Bool
unfolding creatable_roles
can_create_role actor_role target_role =
    any (λ role. role == target_role) (creatable_roles actor_role)

unfoldable pub can_act_on_user : String → String → Bool
unfolding can_create_role
can_act_on_user actor_role target_role =
    if actor_role == role_superadmin then true else can_create_role actor_role target_role

unfoldable pub lead_data_owner_id : String → String → String
unfolding is_lead_analyst
lead_data_owner_id role user_id = if is_lead_analyst role then trim_space user_id else ""

unfoldable pub lead_sales_exec_scope_id : String → String → String
unfolding is_sales_executive
lead_sales_exec_scope_id role user_id = if is_sales_executive role then trim_space user_id else ""

abbrev pub trimmed : Option String → String
trimmed none = ""
trimmed (some s) = trim_space s

unfoldable pub lead_team_scope_id : String → Option String → String
unfolding is_main_team_lead
lead_team_scope_id role team_id = if not (is_main_team_lead role) then "" else trimmed team_id

unfoldable pub lead_analyst_team_lead_id : String → String → String
unfolding is_analyst_team_lead
lead_analyst_team_lead_id role user_id =
    if is_analyst_team_lead role then trim_space user_id else ""

unfoldable pub deref_team_name : Option String → String
deref_team_name name = trimmed name

unfoldable pub same_team_id : Option String → Option String → Bool
same_team_id none b = false
same_team_id (some a) none = false
same_team_id (some a) (some b) = not (trim_space a == "") && trim_space a == trim_space b

pub record RoleInfo : Type 0 where
  pub value : String
  pub label : String

unfoldable pub roles_to_info : List String → List RoleInfo
unfolding role_label
roles_to_info [] = []
roles_to_info (r ∷ roles) = record { value = r; label = role_label r } ∷ roles_to_info roles

unfoldable pub list_roles : List RoleInfo
unfolding roles_to_info
list_roles = roles_to_info all_roles

unfoldable pub list_creatable_roles : String → List RoleInfo
unfolding roles_to_info creatable_roles
list_creatable_roles actor_role = roles_to_info (creatable_roles actor_role)
