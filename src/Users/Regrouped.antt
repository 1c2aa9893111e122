-- ===== src/Users/Regrouped.antt =====
-- users.go, `TransferLeadAnalyst`: where the analyst ends, and who may do it.
use leadflow_v3_server.Base.{
  ℕ, String, Bool, true, false, not, ◌&&◌, ◌||◌, some, List, [], ◌∷◌, ◌==◌, ◌≡◌, refl, sym, subst,
  ◌∙◌, find, update, trim_space, arith, text-cases, eq_refl, inl, inr, Option, none, keep, ap,
  false≢true, trim_space_idem,
}
use leadflow_v3_server.Roles.{role_superadmin, role_analyst_team_lead, role_lead_analyst, trimmed}
use leadflow_v3_server.Db.{Db, UserRow}
use leadflow_v3_server.Db.Statements.{
  ◌>>◌, exec, message, database, user_not_found, team_conflict, transfer_forbidden,
  not_lead_analyst, same_analyst_team, analyst_team_not_found,
}
use leadflow_v3_server.Db.Triples.{
  Runs, Runs-pure, Runs-refuse, Runs-query, Runs-exec, Runs-bind, Runs-read, Runs-if, Runs-weaken,
  Runs-transact, Runs-query_last,
}
use leadflow_v3_server.Users.{has_id}
use leadflow_v3_server.Users.Superadmins.{found_or_runs, find_by_id_runs}
use leadflow_v3_server.Users.Analysts.{
  TransferLeadAnalystInput, TransferLeadAnalystResult, analyst_team_name_from_record,
  analyst_team_names_equal, find_analyst_team_lead_by_id, is_analyst_row, moved_analyst,
  move_analyst, owned_leads, analyst_checked, analyst_body, find_analyst_team_lead_by_team_name,
  find_destination, transfer_lead_analyst, has_text, id_of,
}
use leadflow_v3_server.Users.Deletion.{earliest}

-- An analyst team lead whose team, in small letters, has the name that is asked for.
abbrev pub heads : (String → String) → String → UserRow → Bool
heads lower_trim name u =
    u.role == role_analyst_team_lead && has_text (λ t. lower_trim t == name) u.analyst_team_name

-- The lead that the request asks for: the analyst team lead of the given id, or, without an id, the one whose
-- team has the given name, the oldest account if there are several.
pub record IsDestination (lower_trim lower : String → String) (input : TransferLeadAnalystInput)
    (before : Db) (lead : UserRow) : Type 0 where
  pub by_id :
      (trim_space input.to_lead_id == "") ≡ false
      → (find (has_id (trim_space input.to_lead_id)) before.users ≡ some lead)
        × ((lead.role == role_analyst_team_lead) ≡ true)
  pub by_name :
      (trim_space input.to_lead_id == "") ≡ true
      → (u : UserRow) × ((earliest none
              (keep (heads lower_trim (lower (trim_space input.to_team_name))) before.users)
            ≡ some u)
          × (find (has_id u.id) before.users ≡ some lead))

-- What a successful transfer of an analyst leaves.
pub record Regrouped (lower_trim lower : String → String) (same_fold : String → String → Bool)
    (input : TransferLeadAnalystInput) (before : Db) (r : TransferLeadAnalystResult) (d : Db)
    : Type 0 where
  pub row : UserRow
  pub lead : UserRow
  pub asked : IsDestination lower_trim lower input before lead
  pub was : find (has_id (trim_space input.lead_analyst_id)) before.users ≡ some row
  pub analyst : (row.role == role_lead_analyst) ≡ true
  pub moved :
      analyst_team_names_equal same_fold
        (trimmed row.analyst_team_name)
        (trimmed lead.analyst_team_name)
      ≡ false
  pub senior :
      (input.actor_role == role_superadmin || input.actor_role == role_analyst_team_lead) ≡ true
  pub stored : find (has_id (trim_space input.lead_analyst_id)) d.users ≡ some r.user
  pub team : r.user.analyst_team_name ≡ some (trimmed lead.analyst_team_name)
  pub manager : r.user.manager_id ≡ some lead.id
  pub named : (trimmed lead.analyst_team_name == "") ≡ false
  pub owned : r.leads_owned ≡ owned_leads (trim_space input.lead_analyst_id) before
  pub leads : d.leads ≡ before.leads

find-move_analyst :
    (now : ℕ) (id team lead : String) (us : List UserRow) (u : UserRow)
    → (u.role == role_lead_analyst) ≡ true
    → find (has_id id) us ≡ some u
    → find (has_id id) (update (is_analyst_row id) (moved_analyst now team lead) us)
      ≡ some (moved_analyst now team lead u)
find-move_analyst now id team lead [] u h e = cc
find-move_analyst now id team lead (v ∷ us) u h e = elim (text-cases v.id id) [
  | inl q ↦ ground (arith, eq_refl id)
  | inr q ↦ ground (arith, find-move_analyst now id team lead us u h)
]

is_so : (b : Bool) → not b ≡ false → b ≡ true
is_so true h = refl
is_so false h = sym h

by_id_runs :
    (id : String) (d : Db)
    → Runs (find_analyst_team_lead_by_id id) d (λ u d'.
      (d' ≡ d)
      × ((find (has_id (trim_space id)) d.users ≡ some u)
          × ((u.role == role_analyst_team_lead) ≡ true)))
unfolding find_analyst_team_lead_by_id ◌>>◌
by_id_runs id d = Runs-refuse _ analyst_team_not_found _ d _ λ _.
    Runs-read _ _ d _ _ (find_by_id_runs (trim_space id) d) λ u e.
      Runs-refuse _ analyst_team_not_found _ d _
        λ r. Runs-refuse _ analyst_team_not_found _ d _ λ _. Runs-pure u d _ (refl, (e, is_so _ r))

senior_test : (a b : Bool) → (not a && not b) ≡ false → (a || b) ≡ true
senior_test a b h = ground arith

same_row : (u v : UserRow) → some u ≡ some v → u ≡ v
same_row u v e = cc

-- What the transaction leaves.
record Moved (same_fold : String → String → Bool) (input : TransferLeadAnalystInput)
    (lead : UserRow) (before : Db) (out : ℕ × UserRow) (d : Db) : Type 0 where
  was : find (has_id (trim_space input.lead_analyst_id)) before.users ≡ some out.1
  analyst : (out.1.role == role_lead_analyst) ≡ true
  moved :
      analyst_team_names_equal same_fold
        (trimmed out.1.analyst_team_name)
        (trimmed lead.analyst_team_name)
      ≡ false
  senior :
      (input.actor_role == role_superadmin || input.actor_role == role_analyst_team_lead) ≡ true
  after :
      (u : UserRow)
      → find (has_id (trim_space input.lead_analyst_id)) d.users ≡ some u
      → (u.analyst_team_name ≡ some (trimmed lead.analyst_team_name))
        × (u.manager_id ≡ some lead.id)
  owned : out.0 ≡ owned_leads (trim_space input.lead_analyst_id) before
  leads : d.leads ≡ before.leads

module _ (same_fold : String → String → Bool) (now : ℕ) (input : TransferLeadAnalystInput)
    (lead : UserRow) (d : Db) where
  after_move :
      (row u : UserRow)
      → (row.role == role_lead_analyst) ≡ true
      → find (has_id (trim_space input.lead_analyst_id)) d.users ≡ some row
      → find
          (has_id (trim_space input.lead_analyst_id))
          (move_analyst now
            (trim_space input.lead_analyst_id)
            (trimmed lead.analyst_team_name)
            lead.id
            d).users
        ≡ some u
      → (u.analyst_team_name ≡ some (trimmed lead.analyst_team_name))
        × (u.manager_id ≡ some lead.id)
  after_move row u a e f =
      subst
        (λ v.
          (v.analyst_team_name ≡ some (trimmed lead.analyst_team_name))
          × (v.manager_id ≡ some lead.id))
        (same_row _ u (
          sym (find-move_analyst now _ (trimmed lead.analyst_team_name) lead.id d.users row a e)
          ∙ f))
        (refl, refl)

  analyst_body_runs : Runs (analyst_body same_fold now input lead) d (Moved same_fold input lead d)
  unfolding analyst_body analyst_checked analyst_team_name_from_record exec ◌>>◌
  analyst_body_runs =
      Runs-read _ _ d _ _ (find_by_id_runs (trim_space input.lead_analyst_id) d) λ row e.
        Runs-bind _ _ d (λ n d'. Moved same_fold input lead d (n, row) d') _
          (Runs-refuse _ not_lead_analyst _ d _ λ a. Runs-refuse _ team_conflict _ d _ λ _.
            Runs-refuse _ same_analyst_team _ d _ λ m. Runs-refuse _ transfer_forbidden _ d _ λ s.
              Runs-exec database _
                (move_analyst now (trim_space input.lead_analyst_id)
                  (trimmed lead.analyst_team_name) lead.id)
                _ d _
                (Runs-refuse _ team_conflict _ _ _ λ _.
                  Runs-query_last (owned_leads (trim_space input.lead_analyst_id)) _ _ (record {
                    was = e;
                    analyst = is_so _ a;
                    moved = m;
                    senior = senior_test _ _ s;
                    after = λ u f. after_move row u (is_so _ a) e f;
                    owned = refl;
                    leads = refl;
                  })))
          (λ n d' h. Runs-pure (n, row) d' _ h)

module _ (lower_trim lower : String → String) where
  by_name_runs :
      (name : String) (d : Db)
      → Runs (find_analyst_team_lead_by_team_name lower_trim lower name) d (λ v d'.
        (d' ≡ d)
        × ((u : UserRow) × ((earliest none
                  (keep (heads lower_trim (lower (trim_space name))) d.users)
                ≡ some u)
              × (find (has_id u.id) d.users ≡ some v))))
  unfolding find_analyst_team_lead_by_team_name ◌>>◌
  by_name_runs name d = Runs-refuse _ analyst_team_not_found _ d _ λ _. Runs-query _ _ d _ (
      Runs-read _ _ d _ _ (found_or_runs analyst_team_not_found _ d) λ id f.
        Runs-weaken _ d _ _ (find_by_id_runs id d) λ v d' h.
          let w = chosen_id _ id f in
          (h.0, (w.0, (w.1.0, subst (λ i. find (has_id i) d.users ≡ some v) (sym w.1.1) h.1))))
    where
      chosen_id :
          (o : Option UserRow) (id : String)
          → id_of lower_trim lower o ≡ some id
          → (u : UserRow) × ((o ≡ some u) × (u.id ≡ id))
      chosen_id none id e = cc
      chosen_id (some u) id e = (u, (refl, cc))

  destination_runs :
      (input : TransferLeadAnalystInput) (d : Db)
      → Runs
          (find_destination lower_trim lower input)
          d
          (λ lead d'. (d' ≡ d) × IsDestination lower_trim lower input d lead)
  unfolding find_destination
  destination_runs input d =
      Runs-if (not (trim_space input.to_lead_id == ""))
        (find_analyst_team_lead_by_id (trim_space input.to_lead_id))
        (find_analyst_team_lead_by_team_name lower_trim lower (trim_space input.to_team_name)) d _
        (λ g. Runs-weaken _ d _ _ (by_id_runs (trim_space input.to_lead_id) d) λ u d' h. (
          h.0,
          record {
            by_id = λ _. (
              subst (λ i. find (has_id i) d.users ≡ some u) (trim_space_idem input.to_lead_id)
                  h.1.0,
              h.1.1,
            );
            by_name = λ b. absurd (false≢true (sym (ap not b) ∙ g));
          },
        ))
        (λ g. Runs-weaken _ d _ _ (by_name_runs (trim_space input.to_team_name) d) λ u d' h. (
          h.0,
          record {
            by_id = λ b. absurd (false≢true (sym g ∙ ap not b));
            by_name = λ _.
                subst
                  (λ t.
                    (v : UserRow) × ((earliest none (keep (heads lower_trim (lower t)) d.users)
                        ≡ some v)
                      × (find (has_id v.id) d.users ≡ some u)))
                  (trim_space_idem input.to_team_name) h.1;
          },
        ))

module _ (lower_trim lower : String → String) (same_fold : String → String → Bool) where
  -- A successful transfer was made by a Superadmin or an analyst team lead, of a lead analyst of another
  -- team. The new lead is the one that the request asks for: the analyst team lead of its id, or, without an
  -- id, the oldest account that leads a team of its name. Afterwards the stored account, which is returned,
  -- names the new lead's team, which is not blank, and has that lead as its manager; its leads are counted and
  -- no lead has changed.
  pub transfer_lead_analyst-Regrouped :
      (now : ℕ) (input : TransferLeadAnalystInput) (d : Db)
      → Runs
          (transfer_lead_analyst lower_trim lower same_fold now input)
          d
          (Regrouped lower_trim lower same_fold input d)
  unfolding transfer_lead_analyst analyst_team_name_from_record ◌>>◌
  transfer_lead_analyst-Regrouped now input d = Runs-refuse _ user_not_found _ d _ λ _.
      Runs-refuse _ analyst_team_not_found _ d _ λ _.
        Runs-refuse _ (message "actor is required") _ d _ λ _.
          Runs-read _ _ d _ _ (destination_runs lower_trim lower input d) λ lead asked.
            Runs-refuse _ analyst_team_not_found _ d _ λ named.
              Runs-bind _ _ d (Moved same_fold input lead d) _
                (Runs-transact _ d _ (analyst_body_runs same_fold now input lead d))
                λ out d' m.
                  Runs-read _ _ d' _ _ (find_by_id_runs (trim_space input.lead_analyst_id) d')
                    λ u e. Runs-pure _ d' _ (record {
                      row = out.1;
                      lead = lead;
                      asked = asked;
                      was = m.was;
                      analyst = m.analyst;
                      moved = m.moved;
                      senior = m.senior;
                      stored = e;
                      team = (m.after u e).0;
                      manager = (m.after u e).1;
                      named = named;
                      owned = m.owned;
                      leads = m.leads;
                    })
