-- ===== src/Roles/Ranks.antt =====
-- roles.go: the permission tests respect a ranking of the roles.
use leadflow_v3_server.Base.{
  ℕ, String, true, false, ◌==◌, ◌≡◌, refl, sym, subst, ◌≢◌, ◌<◌, inl, inr, arith, eq_iff,
  if◌then◌else◌, text-cases,
}
use leadflow_v3_server.Roles.{
  role_superadmin, role_analyst_team_lead, role_lead_analyst, role_main_team_lead,
  role_sales_executive, can_act_on_user, can_manage_users, can_delete_leads, can_edit_lead_profile,
  can_mutate_leads, can_view_lead_data, can_assign_to_team_leads, can_create_leads,
  can_change_qualification, can_mark_not_appropriate, can_update_sales_outcome,
}

true≢false : true ≢ false
true≢false e = cc

-- No role name of the server, in either order of the comparison.
pub record IsUnknown (role : String) : Type 0 where
  pub not_superadmin : (role == role_superadmin) ≡ false
  pub not_analyst_team_lead : (role == role_analyst_team_lead) ≡ false
  pub not_lead_analyst : (role == role_lead_analyst) ≡ false
  pub not_main_team_lead : (role == role_main_team_lead) ≡ false
  pub not_sales_executive : (role == role_sales_executive) ≡ false
  pub superadmin_not : (role_superadmin == role) ≡ false
  pub analyst_team_lead_not : (role_analyst_team_lead == role) ≡ false
  pub lead_analyst_not : (role_lead_analyst == role) ≡ false
  pub main_team_lead_not : (role_main_team_lead == role) ≡ false
  pub sales_executive_not : (role_sales_executive == role) ≡ false

flip : (s t : String) → (s == t) ≡ false → (t == s) ≡ false
flip s t h = ground (arith, eq_iff s t, eq_iff t s)

-- A fact about every role name holds if it holds of the five and of every unknown one.
pub role_elim {ℓ} :
    (P : String → Type ℓ)
    → P role_superadmin
    → P role_analyst_team_lead
    → P role_lead_analyst
    → P role_main_team_lead
    → P role_sales_executive
    → ((role : String) → IsUnknown role → P role)
    → (role : String) → P role
role_elim P a b c d e other role = elim (text-cases role role_superadmin) [
  | inl p ↦ subst P (sym p) a
  | inr na ↦ elim (text-cases role role_analyst_team_lead) [
    | inl p ↦ subst P (sym p) b
    | inr nb ↦ elim (text-cases role role_lead_analyst) [
      | inl p ↦ subst P (sym p) c
      | inr nc ↦ elim (text-cases role role_main_team_lead) [
        | inl p ↦ subst P (sym p) d
        | inr nd ↦ elim (text-cases role role_sales_executive) [
          | inl p ↦ subst P (sym p) e
          | inr ne ↦ other role (record {
            not_superadmin = na;
            not_analyst_team_lead = nb;
            not_lead_analyst = nc;
            not_main_team_lead = nd;
            not_sales_executive = ne;
            superadmin_not = flip _ _ na;
            analyst_team_lead_not = flip _ _ nb;
            lead_analyst_not = flip _ _ nc;
            main_team_lead_not = flip _ _ nd;
            sales_executive_not = flip _ _ ne;
          })
        ]
      ]
    ]
  ]
]

-- The seniority that the comments of roles.go describe: 0 is no role.
abbrev pub rank : String → ℕ
rank role =
    if role == role_superadmin
    then 4
    else if role == role_analyst_team_lead
    then 3
    else if role == role_main_team_lead
    then 2
    else if role == role_lead_analyst
    then 1
    else if role == role_sales_executive
    then 1
    else 0

-- An actor other than a Superadmin acts only on users of a valid role that ranks strictly below the
-- actor's own, and then has the permission to manage users.
pub can_act_on_user-lt :
    (actor target : String)
    → can_act_on_user actor target ≡ true
    → actor ≢ role_superadmin
    → (rank target < rank actor) × (0 < rank target) × (can_manage_users actor ≡ true)
unfolding can_act_on_user can_manage_users
can_act_on_user-lt =
    role_elim _ (λ t h n. absurd (n refl))
      (role_elim _ (λ h n. cc) (λ h n. cc) (λ h n. (omega arith, omega arith, refl))
        (λ h n. (omega arith, omega arith, refl)) (λ h n. (omega arith, omega arith, refl))
        (λ t u h n. absurd (true≢false (ground arith))))
      (λ t h n. cc)
      (role_elim _ (λ h n. cc) (λ h n. cc) (λ h n. cc) (λ h n. cc)
        (λ h n. (omega arith, omega arith, refl)) (λ t u h n. absurd (true≢false (ground arith))))
      (λ t h n. cc) (λ a u t h n. absurd (true≢false (ground arith)))

-- Whoever may delete leads may edit their profiles; exactly those who may edit profiles may create leads and
-- change qualifications; they may also assign to team leads, and whoever may do that may mutate leads. Whoever
-- may mark a lead as not appropriate may update sales outcomes, and whoever may do that may mutate leads.
-- Exactly those who may mutate leads may view them.
pub lead_tests_chain :
    (role : String)
    → (can_delete_leads role ≡ true → can_edit_lead_profile role ≡ true)
      × (can_create_leads role ≡ can_edit_lead_profile role)
      × (can_change_qualification role ≡ can_edit_lead_profile role)
      × (can_edit_lead_profile role ≡ true → can_assign_to_team_leads role ≡ true)
      × (can_assign_to_team_leads role ≡ true → can_mutate_leads role ≡ true)
      × (can_mark_not_appropriate role ≡ true → can_update_sales_outcome role ≡ true)
      × (can_update_sales_outcome role ≡ true → can_mutate_leads role ≡ true)
      × (can_mutate_leads role ≡ can_view_lead_data role)
unfolding can_delete_leads can_edit_lead_profile can_assign_to_team_leads can_mutate_leads
    can_view_lead_data can_create_leads can_change_qualification can_mark_not_appropriate
    can_update_sales_outcome
lead_tests_chain =
    role_elim _ (λ _. refl, refl, refl, λ _. refl, λ _. refl, λ h. refl, λ _. refl, refl)
      (λ _. refl, refl, refl, λ _. refl, λ _. refl, λ h. refl, λ _. refl, refl)
      (λ _. refl, refl, refl, λ _. refl, λ _. refl, λ h. cc, λ _. refl, refl)
      (λ h. cc, refl, refl, λ h. cc, λ h. refl, λ h. cc, λ _. refl, refl)
      (λ h. cc, refl, refl, λ h. cc, λ h. refl, λ h. refl, λ _. refl, refl) (λ role u. ground arith)
