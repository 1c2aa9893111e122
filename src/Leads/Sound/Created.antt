-- ===== src/Leads/Sound/Created.antt =====
-- leads.go, `Create`: what a creation that succeeds has made.
use leadflow_v3_server.Base.{
  ℕ, String, none, some, Bool, true, false, false≢true, not, ◌∷◌, ◌==◌, ◌≡◌, refl, sym, ◌∙◌, subst,
  trim_space, arith, length, codes, ◌≤◌,
}
use leadflow_v3_server.Db.{Db}
use leadflow_v3_server.Db.{UserRow}
use leadflow_v3_server.Base.{keep}
use leadflow_v3_server.Roles.{role_superadmin}
use leadflow_v3_server.Users.{found_or, is_role}
use leadflow_v3_server.Users.Deletion.{earliest}
use leadflow_v3_server.Leads.Assign.{default_creator_id}
use leadflow_v3_server.Leads.Assign.Steps.{Leaves-retell, Runs-retell}
use leadflow_v3_server.Leads.Sound.Rules.{found_or-Runs}
use leadflow_v3_server.Db.Triples.{Runs-read}
use leadflow_v3_server.Db.Statements.{message}
use leadflow_v3_server.Db.Triples.{Runs, Runs-pure, Runs-if, Runs-weaken, Runs-query}
use leadflow_v3_server.Db.Outcomes.{
  Leaves, Leaves-pure, Leaves-if, Leaves-refuse, Leaves-read, Leaves-transact,
}
use leadflow_v3_server.Qualification.{canonicalize_qualification}
use leadflow_v3_server.Qualification.Idempotent.{canonicalize-trimmed}
use leadflow_v3_server.Leads.Log.{entered, log_row, is_unlogged}
use leadflow_v3_server.Leads.Edit.{
  CreateLeadInput, is_allowed_source, bad_score, bad_response, value_or,
}
use leadflow_v3_server.Leads.Edit.Create.{creator, new_lead, is_taken, first_change, create_lead}
use leadflow_v3_server.Leads.Sound.{IsSound}
use leadflow_v3_server.Leads.Sound.Assignments.{default_creator_id-Leaves}
use leadflow_v3_server.Leads.Sound.Creations.{after-IsSound, create_body-Runs}

unlogged_first :
    (lead_id status created_by : String) (at : ℕ)
    → trim_space lead_id ≡ lead_id
    → (lead_id == "") ≡ false
    → trim_space status ≡ status
    → (status == "") ≡ false
    → is_unlogged (first_change at lead_id status created_by) ≡ false
unfolding trim_space
unlogged_first lead_id status created_by at t n t' n' = rw (t, n, t', n') refl

-- Who is named as the creator: the trimmed text of the request, or, for a blank one, the account of the
-- default.
abbrev IsCreator : String → Db → String → Type 0
IsCreator raw d created_by =
    ((trim_space raw == "") ≡ false → created_by ≡ trim_space raw)
    × ((trim_space raw == "") ≡ true
        → (u : UserRow) × (earliest none (keep (is_role role_superadmin) d.users) ≡ some u)
          × (created_by ≡ u.id))

creator-Runs : (raw : String) (d : Db) → Runs (creator raw) d (λ u d'. (d' ≡ d) × IsCreator raw d u)
unfolding creator default_creator_id
creator-Runs raw d =
    Runs-if (trim_space raw == "") _ _ d _
      (λ h. Runs-retell _ _ d _ (
        Runs-query _ _ d _ (
          Runs-read
            (found_or (message "no actor available")
              (earliest none (keep (is_role role_superadmin) d.users)))
            _ d (λ u. earliest none (keep (is_role role_superadmin) d.users) ≡ some u) _
            (found_or-Runs _ _ d)
            λ u e.
              Runs-pure u.id d _
                (refl, ((λ n. absurd (false≢true (sym n ∙ h))), λ _. (u, e, refl))))))
      (λ n.
        Runs-pure (trim_space raw) d _ (refl, ((λ _. refl), λ h. absurd (false≢true (sym n ∙ h)))))

creator-Leaves : (raw : String) (d : Db) → Leaves (creator raw) d (λ x. x ≡ d)
unfolding creator
creator-Leaves raw d =
    Leaves-if (λ x. x ≡ d) (trim_space raw == "") _ _ d
      (λ h. Leaves-retell (λ x. x ≡ d) _ _ d (default_creator_id-Leaves (λ x. x ≡ d) d refl))
      (λ n. Leaves-pure (λ x. x ≡ d) _ d refl)

module _ (lead_id handoff_id log_id : String) (now : ℕ) (input : CreateLeadInput) where
  -- What a creation leaves in the database.
  pub record IsCreated (d : Db) (id : String) (d' : Db) : Type 0 where
    pub creator_id : String
    pub is_creator : IsCreator input.created_by_id d creator_id
    pub returned : id ≡ lead_id
    pub fresh : is_taken lead_id d ≡ false
    pub accepted : is_allowed_source input.source ≡ true
    pub in_range : (bad_score input ≡ false) × (bad_response input ≡ false)
    pub known : (canonicalize_qualification input.qualification_status).1 ≡ true
    pub lead :
        d'.leads
        ≡ entered (value_or input.created_at now) (
            new_lead now lead_id input
              (canonicalize_qualification input.qualification_status).0
              creator_id)
          ∷ d.leads
    pub logged_once :
        d'.qualification_log
        ≡ log_row log_id now (
            first_change
              (value_or input.created_at now)
              lead_id
              (canonicalize_qualification input.qualification_status).0
              creator_id)
          ∷ d.qualification_log
    pub detail : String
    pub handed :
        d'.handoffs
        ≡ record {
          id = handoff_id;
          created_at = value_or input.created_at now;
          lead_id = lead_id;
          action = "LEAD_CREATED";
          actor_id = creator_id;
          detail = detail;
        }
          ∷ d.handoffs
    pub named : length (codes (trim_space input.full_name)) ≤ 200
    pub others :
        (d'.users ≡ d.users)
        × (d'.teams ≡ d.teams)
        × (d'.transfers ≡ d.transfers)
        × (d'.api_keys ≡ d.api_keys)

  known_code : (b : Bool) → not b ≡ false → b ≡ true
  known_code b h = ground arith

  -- The creation of a lead keeps the rows sound, whatever the server answers.
  pub create_lead-Leaves :
      trim_space lead_id ≡ lead_id
      → (lead_id == "") ≡ false
      → (d : Db) → IsSound d
      → Leaves (create_lead lead_id handoff_id log_id now input) d IsSound
  unfolding create_lead
  create_lead-Leaves t n d s =
      let code = canonicalize_qualification input.qualification_status in
      Leaves-refuse IsSound _ _ _ d s λ _. Leaves-refuse IsSound _ _ _ d s λ _.
        Leaves-refuse IsSound (not code.1) _ _ d s λ k. Leaves-refuse IsSound _ _ _ d s λ _.
          Leaves-refuse IsSound _ _ _ d s λ _.
            Leaves-read IsSound (creator input.created_by_id) _ d (IsCreator input.created_by_id d)
              s (creator-Leaves input.created_by_id d)
              (Runs-weaken _ d _ _ (creator-Runs input.created_by_id d) λ _ _ q. q.1)
              λ who c.
                let q = canonicalize-trimmed input.qualification_status (known_code code.1 k) in
                Leaves-transact IsSound _ d s (
                  Runs-weaken _ d _ _
                    (create_body-Runs lead_id handoff_id log_id now input code.0 who d (
                      unlogged_first lead_id code.0 who (value_or input.created_at now) t n q.0
                        q.1))
                    λ id d' r.
                      subst IsSound (sym r.3) (
                        after-IsSound lead_id handoff_id log_id now input code.0 who d r.2 s r.1 t))
