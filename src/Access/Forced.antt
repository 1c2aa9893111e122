-- ===== src/Access/Forced.antt =====
-- handlers.go, `applyActorLeadScope`: the filters of a scoped actor do not depend on the request; and
-- user_admin.go, `actorMayManageTarget`: whom an actor may manage.
use leadflow_v3_server.Base.{
  ℕ, ◌≢◌, String, some, Bool, true, false, false≢true, not, ◌||◌, ◌==◌, ◌≡◌, ◌⊎◌, refl, subst,
  trim_space, if◌then◌else◌, arith, inl, inr, eq_iff,
}
use leadflow_v3_server.Roles.{
  role_superadmin, role_analyst_team_lead, role_lead_analyst, role_main_team_lead,
  role_sales_executive, is_main_team_lead, is_lead_analyst, is_sales_executive,
  is_analyst_team_lead, lead_data_owner_id, lead_team_scope_id, lead_sales_exec_scope_id,
  lead_analyst_team_lead_id, deref_team_name, trimmed, same_team_id, can_act_on_user,
}
use leadflow_v3_server.Db.{UserRow}
use leadflow_v3_server.Access.{
  AuthUser, Access, granted, denied, LeadListParams, no_team, actor_lead_owner_id,
  actor_lead_sales_exec_id, actor_analyst_team_scope, actor_lead_team_id, apply_actor_lead_scope,
  actor_may_manage_target,
}

-- The filter by which the actor's role narrows a list, whatever the client asked for.
pub record IsForced (a : AuthUser) (p : LeadListParams) : Type 0 where
  pub analyst : a.role ≡ role_lead_analyst → p.analyst_id ≡ trim_space a.id
  pub executive : a.role ≡ role_sales_executive → p.sales_exec_id ≡ trim_space a.id
  pub analyst_lead :
      a.role ≡ role_analyst_team_lead
      → (p.analyst_team_lead_id ≡ trim_space a.id)
        × (p.analyst_team_name ≡ trimmed a.analyst_team_name)
        × (p.manager_id ≡ "")
  pub main_lead :
      a.role ≡ role_main_team_lead
      → p.team_id ≡ (if trimmed a.team_id == "" then no_team else trimmed a.team_id)

-- Whatever filters a client sends, an actor with an id lists only leads it created (lead analyst), has
-- (sales executive), of its analyst team (analyst team lead), or of its team, a team that no lead has
-- if it is linked to none (main team lead).
pub apply_actor_lead_scope-IsForced :
    (a : AuthUser) (p : LeadListParams)
    → (trim_space a.id == "") ≡ false
    → IsForced a (apply_actor_lead_scope (some a) p)
unfolding apply_actor_lead_scope actor_lead_owner_id actor_lead_sales_exec_id
    actor_analyst_team_scope actor_lead_team_id is_lead_analyst is_sales_executive
    is_analyst_team_lead is_main_team_lead lead_data_owner_id lead_sales_exec_scope_id
    lead_analyst_team_lead_id lead_team_scope_id deref_team_name
apply_actor_lead_scope-IsForced a p n = record {
  analyst = λ e. rw (e, n) refl;
  executive = λ e. rw (e, n) refl;
  analyst_lead = λ e. rw (e, n, n) (refl, refl, refl);
  main_lead = λ e. rw e (ground arith);
}

granted_cases :
    (s act main blank executive same : Bool) (x y z : Access)
    → x ≢ granted
    → y ≢ granted
    → z ≢ granted
    → (if s
        then granted
        else if not act
        then x
        else if not main
        then granted
        else if blank
        then y
        else if not executive || not same
        then z
        else granted)
      ≡ granted
    → (s ≡ true) ⊎ ((act ≡ true) × (main ≡ true → (executive ≡ true) × (same ≡ true)))
granted_cases true act main blank executive same x y z p q r h = inl refl
granted_cases false false main blank executive same x y z p q r h = absurd (p h)
granted_cases false true false blank executive same x y z p q r h =
    inr (refl, λ e. absurd (false≢true e))
granted_cases false true true true executive same x y z p q r h = absurd (q h)
granted_cases false true true false false same x y z p q r h = absurd (r h)
granted_cases false true true false true false x y z p q r h = absurd (r h)
granted_cases false true true false true true x y z p q r h = inr (refl, λ e. (refl, refl))

denied_ne : (n : ℕ) (t : String) → denied n t ≢ granted
denied_ne n t e = cc

own_team :
    (a : AuthUser)
    → is_main_team_lead a.role ≡ true
    → lead_team_scope_id a.role a.team_id ≡ trimmed a.team_id
unfolding lead_team_scope_id
own_team a m = rw m refl

-- A main team lead is let through only to a sales executive of its own team, which is not blank; any
-- other actor only to itself being Superadmin or to a role that its own may act on.
pub actor_may_manage_target-granted :
    (a : AuthUser) (target : UserRow)
    → actor_may_manage_target a target ≡ granted
    → (a.role ≡ role_superadmin)
      ⊎ ((can_act_on_user a.role target.role ≡ true)
          × (is_main_team_lead a.role ≡ true
              → (target.role ≡ role_sales_executive)
                × (same_team_id target.team_id (some (trimmed a.team_id)) ≡ true)))
unfolding actor_may_manage_target lead_team_scope_id
actor_may_manage_target-granted a target h =
    elim (granted_cases (a.role == role_superadmin) (can_act_on_user a.role target.role)
      (is_main_team_lead a.role) (lead_team_scope_id a.role a.team_id == "")
      (target.role == role_sales_executive)
      (same_team_id target.team_id (some (lead_team_scope_id a.role a.team_id))) _ _ _
      (denied_ne 403 "you cannot manage this user")
      (denied_ne 403 "your account is not linked to a team") (denied_ne 404 "user not found") h) [
        | inl e ↦ inl ((eq_iff a.role role_superadmin).0 e)
        | inr e ↦ inr (
          e.0,
          λ m. (
            (eq_iff target.role role_sales_executive).0 (e.1 m).0,
            subst (λ t. same_team_id target.team_id (some t) ≡ true) (own_team a m) (e.1 m).1,
          ),
        )
      ]
