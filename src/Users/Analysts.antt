-- ===== src/Users/Analysts.antt =====
-- users.go, `TransferLeadAnalyst`: a lead analyst moves to the team of another analyst team lead.
-- `lower_trim` stands for PostgreSQL's LOWER(TRIM(…)), `lower` for LOWER(…), and
-- `same_fold` for strings.EqualFold of Go, which folds the letters of all alphabets.
use leadflow_v3_server.Base.{
  ℕ, String, Bool, false, not, ◌&&◌, Option, none, some, ◌==◌, eqb, count, update, keep, trim_space,
  if◌then◌else◌,
}
use leadflow_v3_server.Roles.{role_superadmin, role_analyst_team_lead, role_lead_analyst, trimmed}
use leadflow_v3_server.Db.{Db, UserRow}
use leadflow_v3_server.Db.Statements.{
  M, pure, ◌>>=◌, ◌>>◌, refuse_if, query, exec, transact, message, user_not_found, team_conflict,
  transfer_forbidden, not_lead_analyst, same_analyst_team, analyst_team_not_found,
}
use leadflow_v3_server.Users.{has_id, found_or, find_by_id}
use leadflow_v3_server.Users.Deletion.{is_some_id, earliest}

pub record TransferLeadAnalystInput : Type 0 where
  pub lead_analyst_id : String
  pub to_team_name : String
  pub to_lead_id : String
  pub expected_team_name : String
  pub actor_id : String
  pub actor_role : String

pub record TransferLeadAnalystResult : Type 0 where
  pub user : UserRow
  pub leads_owned : ℕ
  pub from_team_name : Option String
  pub to_team_name : String

unfoldable pub analyst_team_name_from_record : UserRow → String
analyst_team_name_from_record u = trimmed u.analyst_team_name

abbrev pub deref_string : Option String → String
deref_string none = ""
deref_string (some s) = s

unfoldable pub analyst_team_names_equal : (String → String → Bool) → String → String → Bool
analyst_team_names_equal same_fold a b = same_fold (trim_space a) (trim_space b)

unfoldable pub find_analyst_team_lead_by_id : String → M UserRow
unfolding find_by_id analyst_team_name_from_record
find_analyst_team_lead_by_id raw_id =
    refuse_if (trim_space raw_id == "") analyst_team_not_found
    >> find_by_id (trim_space raw_id)
    >>= λ u.
        refuse_if (not (u.role == role_analyst_team_lead)) analyst_team_not_found
        >> refuse_if (analyst_team_name_from_record u == "") analyst_team_not_found
        >> pure u

abbrev pub has_text : (String → Bool) → Option String → Bool
has_text p none = false
has_text p (some s) = p s

abbrev pub moved_analyst : ℕ → String → String → UserRow → UserRow
moved_analyst now team lead u = record u {
  analyst_team_name = some team;
  manager_id = some lead;
  updated_at = now;
}

abbrev pub is_analyst_row : String → UserRow → Bool
is_analyst_row id u = has_id id u && u.role == role_lead_analyst

abbrev pub move_analyst : ℕ → String → String → String → Db → Db
move_analyst now id team lead d = record d {
  users = update (is_analyst_row id) (moved_analyst now team lead) d.users;
}

abbrev pub owned_leads : String → Db → ℕ
owned_leads id d = count (λ l. is_some_id id l.created_by_id) d.leads

-- The transaction, from the analyst's row on.
unfoldable pub analyst_checked :
    (String → String → Bool) → ℕ → TransferLeadAnalystInput → UserRow → UserRow → M ℕ
unfolding analyst_team_names_equal analyst_team_name_from_record
analyst_checked same_fold now input lead row =
    let id = trim_space input.lead_analyst_id in
    let team = analyst_team_name_from_record lead in
    let expected = trim_space input.expected_team_name in
    refuse_if (not (row.role == role_lead_analyst)) not_lead_analyst
    >> refuse_if
        (not (expected == "")
          && not (analyst_team_names_equal same_fold (deref_string row.analyst_team_name) expected))
        team_conflict
    >> refuse_if (analyst_team_names_equal same_fold (trimmed row.analyst_team_name) team)
        same_analyst_team
    >> refuse_if
        (not (input.actor_role == role_superadmin)
          && not (input.actor_role == role_analyst_team_lead))
        transfer_forbidden
    >> exec (λ d. count (is_analyst_row id) d.users) (move_analyst now id team lead.id)
    >>= λ rows. refuse_if (not (eqb rows 1)) team_conflict >> query (owned_leads id)

unfoldable pub analyst_body :
    (String → String → Bool) → ℕ → TransferLeadAnalystInput → UserRow → M (ℕ × UserRow)
unfolding analyst_checked find_by_id
analyst_body same_fold now input lead = find_by_id (trim_space input.lead_analyst_id) >>= λ row.
    analyst_checked same_fold now input lead row >>= λ owned. pure (owned, row)

abbrev pub non_empty_name : String → Option String
non_empty_name s = if s == "" then none else some s

module _ (lower_trim lower : String → String) where
  abbrev pub leads_team : String → UserRow → Bool
  leads_team name u =
      u.role == role_analyst_team_lead
      && has_text (λ t. lower_trim t == lower name) u.analyst_team_name

  abbrev pub id_of : Option UserRow → Option String
  id_of none = none
  id_of (some u) = some u.id

  unfoldable pub find_analyst_team_lead_by_team_name : String → M UserRow
  unfolding find_by_id
  find_analyst_team_lead_by_team_name raw_name =
      let name = trim_space raw_name in
      refuse_if (name == "") analyst_team_not_found
      >> query (λ d. id_of (earliest none (keep (leads_team name) d.users)))
      >>= λ o. found_or analyst_team_not_found o >>= λ id. find_by_id id

  unfoldable pub find_destination : TransferLeadAnalystInput → M UserRow
  unfolding find_analyst_team_lead_by_id find_analyst_team_lead_by_team_name
  find_destination input =
      if not (trim_space input.to_lead_id == "")
      then find_analyst_team_lead_by_id (trim_space input.to_lead_id)
      else find_analyst_team_lead_by_team_name (trim_space input.to_team_name)

module _ (lower_trim lower : String → String) (same_fold : String → String → Bool) where
  unfoldable pub transfer_lead_analyst : ℕ → TransferLeadAnalystInput → M TransferLeadAnalystResult
  unfolding find_destination analyst_body find_by_id analyst_team_name_from_record
  transfer_lead_analyst now input =
      let id = trim_space input.lead_analyst_id in
      refuse_if (id == "") user_not_found
      >> refuse_if (trim_space input.to_team_name == "" && trim_space input.to_lead_id == "")
          analyst_team_not_found
      >> refuse_if (trim_space input.actor_id == "") (message "actor is required")
      >> find_destination lower_trim lower input
      >>= λ lead.
          refuse_if (analyst_team_name_from_record lead == "") analyst_team_not_found
          >> transact (analyst_body same_fold now input lead)
          >>= λ out. find_by_id id >>= λ user. pure (record {
            user = user;
            leads_owned = out.0;
            from_team_name = non_empty_name (trimmed out.1.analyst_team_name);
            to_team_name = analyst_team_name_from_record lead;
          })
