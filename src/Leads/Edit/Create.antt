-- ===== src/Leads/Edit/Create.antt =====
-- leads.go, `Create`. `lead_id`, `handoff_id` and `log_id` stand for the three calls of `uuid.NewString`.
use Prim.Native.String.{◌++◌}
use leadflow_v3_server.Base.{
  ℕ, String, Option, none, some, Bool, false, not, ◌∷◌, ◌==◌, any, find, update, trim_space,
  if◌then◌else◌,
}
use leadflow_v3_server.Db.{Db, LeadRow}
use leadflow_v3_server.Db.Statements.{
  database, M, pure, ◌>>=◌, ◌>>◌, refuse_if, query, exec, transact, message, err, later,
}
use leadflow_v3_server.Users.{has_id}
use leadflow_v3_server.Qualification.{canonicalize_qualification}
use leadflow_v3_server.Leads.Assign.{attempt, retell, default_creator_id}
use leadflow_v3_server.Leads.Log.{Change, is_lead, entered, insert_qualification_log}
use leadflow_v3_server.Leads.Edit.{
  CreateLeadInput, is_allowed_source, is_too_long, bad_score, bad_response, optional_proof_path,
  value_or,
}

-- An INSERT, which the server rejects where the key is taken.
unfoldable pub insert_row : (Db → Bool) → (Db → Db) → M (Unit {0})
insert_row taken write c = if taken c.db then (err database, later c) else exec (λ _. tt) write c

unfoldable pub creator : String → M String
unfolding retell default_creator_id
creator raw =
    if trim_space raw == ""
    then retell (message "no creator available") default_creator_id
    else pure (trim_space raw)

abbrev pub new_lead : ℕ → String → CreateLeadInput → String → String → LeadRow
new_lead now lead_id input status created_by = record {
  id = lead_id;
  lead_name = trim_space input.full_name;
  qualification_status = status;
  sales_stage = some "PRE_SALES";
  created_by_id = some created_by;
  team_id = none;
  assigned_main_team_lead_id = none;
  assigned_sales_exec_id = none;
  not_appropriate_by_id = none;
  exec_assigned_at = none;
  exec_deadline_at = none;
  updated_at = now;
  phone = input.phone;
  lead_email = input.email;
  country = input.country;
  city = input.city;
  portal_website = input.portal_website;
  source = input.source;
  source_meta_profile_name = input.source_meta_profile_name;
  language = input.language;
  client_profile = input.client_profile;
  lead_score = input.lead_score;
  notes = input.notes;
  created_at = value_or input.created_at now;
  first_client_message_at = input.first_client_message_at;
  first_agent_message_at = input.first_agent_message_at;
  first_response_minutes = input.first_response_minutes;
  first_response_proof_path = optional_proof_path input.first_response_proof_path;
  qualification_entered_at = none;
  not_appropriate = false;
  not_appropriate_reason = none;
  not_appropriate_at = none;
  closed_at = none;
  closed_revenue = none;
  initial_payment = none;
  estimated_deal_value = none;
  deal_currency = "AUD";
  lost_notes = none;
  internal_reassign_count = 0;
}

abbrev pub add_lead : LeadRow → Db → Db
add_lead l d = record d { leads = l ∷ d.leads }

abbrev pub is_taken : String → Db → Bool
is_taken id d = any (is_lead id) d.leads

abbrev pub created_detail : Option String → String
created_detail none = "Created via LeadFlow UI"
created_detail (some name) = if name == "" then "Created via LeadFlow UI" else "Created by " ++ name

abbrev pub name_of : String → Db → Option String
name_of id d = elim (find (has_id id) d.users) [ none ↦ none | some u ↦ some u.name ]

abbrev pub log_created : String → ℕ → String → String → String → Db → Db
log_created handoff_id at lead_id actor detail d = record d {
  handoffs =
      record {
        id = handoff_id;
        created_at = at;
        lead_id = lead_id;
        action = "LEAD_CREATED";
        actor_id = actor;
        detail = detail;
      }
      ∷ d.handoffs;
}

abbrev pub first_change : ℕ → String → String → String → Change
first_change at lead_id status created_by = record {
  lead_id = lead_id;
  from_status = "";
  to_status = status;
  actor_id = created_by;
  reason = "";
  source = "create";
  at = at;
}

abbrev pub stamp_first : String → ℕ → Db → Db
stamp_first id at d = record d { leads = update (is_lead id) (entered at) d.leads }

module _ (lead_id handoff_id log_id : String) where
  unfoldable pub create_body : ℕ → CreateLeadInput → String → String → M String
  unfolding insert_row attempt insert_qualification_log optional_proof_path
  create_body now input status created_by =
      let at = value_or input.created_at now in
      insert_row (is_taken lead_id) (add_lead (new_lead now lead_id input status created_by))
      >> attempt (query (name_of created_by))
      >>= λ name.
          exec (λ _. tt) (log_created handoff_id at lead_id created_by (created_detail name))
          >> insert_qualification_log log_id now (first_change at lead_id status created_by)
          >> exec (λ _. tt) (stamp_first lead_id at)
          >> pure lead_id

  unfoldable pub create_lead : ℕ → CreateLeadInput → M String
  unfolding creator create_body canonicalize_qualification
  create_lead now input =
      let code = canonicalize_qualification input.qualification_status in
      refuse_if (is_too_long input) (message "full name must be at most 200 characters")
      >> refuse_if (not (is_allowed_source input.source)) (message "invalid source")
      >> refuse_if (not code.1) (message "invalid qualification status")
      >> refuse_if (bad_score input) (message "lead score must be between 0 and 100")
      >> refuse_if (bad_response input)
          (message "first response duration must be between 0 minutes and 7 days")
      >> creator input.created_by_id
      >>= λ created_by. transact (create_body now input code.0 created_by)
