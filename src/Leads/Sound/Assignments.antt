-- ===== src/Leads/Sound/Assignments.antt =====
-- assign.go, `AssignLeads` to a member: it keeps the rows sound.
use leadflow_v3_server.Base.{
  subst, sym, ℕ, String, Option, none, some, Bool, true, false, ◌==◌, ◌≡◌, keep, trim_space, [],
}
use leadflow_v3_server.Db.{Db, UserRow}
use leadflow_v3_server.Db.Statements.{Error, pure, message, refuse_if}
use leadflow_v3_server.Db.Outcomes.{
  Leaves, Leaves-pure, Leaves-if, Leaves-refuse, Leaves-bind, Leaves-query, Leaves-query_last,
  Leaves-transact, Leaves-then,
}
use leadflow_v3_server.Roles.{role_superadmin}
use leadflow_v3_server.Users.{found_or, is_role}
use leadflow_v3_server.Users.Deletion.{earliest}
use leadflow_v3_server.Leads.Assign.{label_of}
use leadflow_v3_server.Leads.Assign.{
  AssignLeadInput, assign_leads, resolve_actor, default_creator_id, check_assignee, resolve_lead,
  lead_of_team, is_lead_kind, assignee_row, clean_ids,
}
use leadflow_v3_server.Leads.Assign.Steps.{Leaves-retell, Leaves-attempt}
use leadflow_v3_server.Leads.Sound.{IsSound}
use leadflow_v3_server.Leads.Sound.Rules.{Leaves-found_or, Leaves-found}
use leadflow_v3_server.Leads.Sound.Removals.{assign_body-Runs}

module _ (I : Db → Type 0) where
  Leaves-refuse_if : (b : Bool) (e : Error) (d : Db) → I d → Leaves (refuse_if b e) d I
  unfolding refuse_if Leaves
  Leaves-refuse_if true e d i c p = subst I (sym p) i
  Leaves-refuse_if false e d i c p = subst I (sym p) i

  pub default_creator_id-Leaves : (d : Db) → I d → Leaves default_creator_id d I
  unfolding default_creator_id
  default_creator_id-Leaves d i = Leaves-query I _ _ d i (
      Leaves-bind I
        (found_or (message "no actor available")
          (earliest none (keep (is_role role_superadmin) d.users)))
        (λ (u : UserRow). pure u.id) d (Leaves-found_or I _ _ d i)
        λ (u : UserRow) d' i'. Leaves-pure I u.id d' i')

  resolve_actor-Leaves : (raw : String) (d : Db) → I d → Leaves (resolve_actor raw) d I
  unfolding resolve_actor
  resolve_actor-Leaves raw d i =
      Leaves-if I (trim_space raw == "") _ _ d
        (λ _. Leaves-retell I _ _ d (default_creator_id-Leaves d i))
        (λ _. Leaves-pure I (trim_space raw) d i)

  check_assignee-Leaves :
      (input : AssignLeadInput) (a : UserRow) (d : Db) → I d → Leaves (check_assignee input a) d I
  unfolding check_assignee
  check_assignee-Leaves input a d i = Leaves-refuse I _ _ _ d i λ _.
      Leaves-if I (is_lead_kind input.kind) _ _ d (λ _. Leaves-refuse_if _ _ d i)
        (λ _. Leaves-refuse_if _ _ d i)

  lead_of_team-Leaves :
      (b : Bool) (team : Option String) (d : Db) → I d → Leaves (lead_of_team b team) d I
  unfolding lead_of_team
  lead_of_team-Leaves true team d i = Leaves-pure I none d i
  lead_of_team-Leaves false none d i = Leaves-pure I none d i
  lead_of_team-Leaves false (some t) d i = Leaves-attempt I _ d (Leaves-query_last I _ d i)

-- Giving leads to a member keeps the rows sound, whatever the server answers.
pub assign_leads-Leaves :
    (fold_key upper_key : String → String) (uuid : String → String) (now : ℕ)
    (input : AssignLeadInput)
    → is_lead_kind input.kind ≡ false
    → (d : Db) → IsSound d
    → Leaves (assign_leads fold_key upper_key uuid now input) d IsSound
unfolding assign_leads resolve_lead
assign_leads-Leaves fold_key upper_key uuid now input m d s = Leaves-refuse IsSound _ _ _ d s λ _.
    Leaves-refuse IsSound _ _ _ d s λ _. Leaves-refuse IsSound _ _ _ d s λ _.
      Leaves-refuse IsSound _ _ _ d s λ _. Leaves-refuse IsSound _ _ _ d s λ _.
        Leaves-bind IsSound _ _ d (resolve_actor-Leaves IsSound input.actor_id d s) λ actor d₁ s₁.
          Leaves-bind IsSound _ _ d₁
            (Leaves-retell IsSound _ _ d₁ (
              Leaves-found IsSound _ (assignee_row fold_key upper_key uuid input.assignee_id) d₁
                s₁))
            λ row d₂ s₂.
              Leaves-then IsSound _ _ d₂ (check_assignee-Leaves IsSound input row.0 d₂ s₂) λ d₃ s₃.
                Leaves-bind IsSound _ _ d₃
                  (lead_of_team-Leaves IsSound (is_lead_kind input.kind) row.0.team_id d₃ s₃)
                  λ lead d₄ s₄. Leaves-transact IsSound _ d₄ s₄ (
                    assign_body-Runs fold_key upper_key uuid
                      (record {
                        to_lead = is_lead_kind input.kind;
                        assignee = row.0;
                        main_lead = lead;
                        team_label = label_of fold_key upper_key uuid row.1;
                        actor_id = actor;
                        now = now;
                      })
                      m input (clean_ids [] input.lead_ids) d₄ s₄)
