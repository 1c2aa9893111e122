-- ===== src/Roles/Tests.antt =====
-- roles.go on concrete roles.
use leadflow_v3_server.Base.{true, ◌≡◌, ◌≢◌, ◌<◌, refl}
use leadflow_v3_server.Roles.{
  role_superadmin, role_analyst_team_lead, role_sales_executive, can_act_on_user, can_manage_users,
  can_delete_leads, can_edit_lead_profile, can_create_leads, can_change_qualification,
  can_mark_not_appropriate, can_update_sales_outcome, can_assign_to_team_leads, can_mutate_leads,
  can_view_lead_data,
}
use leadflow_v3_server.Roles.Ranks.{rank, can_act_on_user-lt, lead_tests_chain}

junior : role_analyst_team_lead ≢ role_superadmin
junior e = cc

can_act_on_user-lt_example :
    (rank role_sales_executive < rank role_analyst_team_lead)
    × (0 < rank role_sales_executive)
    × (can_manage_users role_analyst_team_lead ≡ true)
unfolding can_act_on_user
can_act_on_user-lt_example =
    can_act_on_user-lt role_analyst_team_lead role_sales_executive refl junior

lead_tests_chain_example :
    (can_delete_leads role_analyst_team_lead ≡ true
      → can_edit_lead_profile role_analyst_team_lead ≡ true)
    × (can_create_leads role_analyst_team_lead ≡ can_edit_lead_profile role_analyst_team_lead)
    × (can_change_qualification role_analyst_team_lead
        ≡ can_edit_lead_profile role_analyst_team_lead)
    × (can_edit_lead_profile role_analyst_team_lead ≡ true
        → can_assign_to_team_leads role_analyst_team_lead ≡ true)
    × (can_assign_to_team_leads role_analyst_team_lead ≡ true
        → can_mutate_leads role_analyst_team_lead ≡ true)
    × (can_mark_not_appropriate role_analyst_team_lead ≡ true
        → can_update_sales_outcome role_analyst_team_lead ≡ true)
    × (can_update_sales_outcome role_analyst_team_lead ≡ true
        → can_mutate_leads role_analyst_team_lead ≡ true)
    × (can_mutate_leads role_analyst_team_lead ≡ can_view_lead_data role_analyst_team_lead)
lead_tests_chain_example = lead_tests_chain role_analyst_team_lead
