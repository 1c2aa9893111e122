-- ===== src/Leads/Edit.antt =====
-- leads.go, `Update`, and the checks that it shares with `Create`.
pub mod Create
use leadflow_v3_server.Base.{
  ℕ, ℤ, String, Option, none, some, Bool, true, false, not, ◌&&◌, List, [], ◌∷◌, ◌==◌, any, eqb,
  ltb, length, codes, count, update, trim_space, given_outside, if◌then◌else◌,
}
use leadflow_v3_server.Db.{Db, LeadRow}
use leadflow_v3_server.Db.Statements.{M, pure, ◌>>=◌, ◌>>◌, refuse_if, exec, transact, message}
use leadflow_v3_server.Qualification.{canonicalize_qualification}
use leadflow_v3_server.Leads.Log.{Change, is_lead, insert_qualification_log}
use leadflow_v3_server.Leads.Status.{lead_or_not_found}

pub record CreateLeadInput : Type 0 where
  pub full_name : String
  pub email : Option String
  pub phone : Option String
  pub country : Option String
  pub city : Option String
  pub portal_website : Option String
  pub source : String
  pub source_meta_profile_name : Option String
  pub language : Option String
  pub client_profile : Option String
  pub qualification_status : String
  pub lead_score : Option ℤ
  pub created_at : Option ℕ
  pub notes : Option String
  pub first_client_message_at : Option ℕ
  pub first_agent_message_at : Option ℕ
  pub first_response_minutes : Option ℤ
  pub first_response_proof_path : Option String
  pub created_by_id : String

abbrev pub allowed_lead_sources : List String
allowed_lead_sources =
    "Meta WhatsApp" ∷ "Meta Messenger" ∷ "Website WhatsApp" ∷ "Meta Lead Form"
    ∷ "Website Download Form" ∷ "G.WhatsApp(CAM/CWA/CRW)" ∷ "Google LeadForm" ∷ []

abbrev pub is_allowed_source : String → Bool
is_allowed_source source = any (λ s. s == source) allowed_lead_sources

abbrev pub is_too_long : CreateLeadInput → Bool
is_too_long input = ltb 200 (length (codes (trim_space input.full_name)))

abbrev pub bad_score : CreateLeadInput → Bool
bad_score input = given_outside 100 input.lead_score

-- Seven days of minutes.
abbrev pub bad_response : CreateLeadInput → Bool
bad_response input = given_outside 10_080 input.first_response_minutes

unfoldable pub optional_proof_path : Option String → Option String
optional_proof_path none = none
optional_proof_path (some raw) = if trim_space raw == "" then none else some (trim_space raw)

-- The status that is stored: the code, or the text of the row where it is no known status.
abbrev pub stored_status : CreateLeadInput → String
stored_status input =
    if (canonicalize_qualification input.qualification_status).1
    then (canonicalize_qualification input.qualification_status).0
    else input.qualification_status

abbrev pub is_bad_status : CreateLeadInput → LeadRow → Bool
is_bad_status input l =
    not (canonicalize_qualification input.qualification_status).1
    && not (input.qualification_status == l.qualification_status)

-- `strings.TrimSpace(in.QualificationStatus) != strings.TrimSpace(currentQual)`
abbrev pub is_status_changed : CreateLeadInput → LeadRow → Bool
is_status_changed input l =
    not (trim_space (stored_status input) == trim_space l.qualification_status)

abbrev pub value_or : {A : Type 0} → Option A → A → A
value_or none old = old
value_or (some x) old = x

-- The SET list.
abbrev pub edited : ℕ → CreateLeadInput → Bool → LeadRow → LeadRow
edited now input status_changed l = record l {
  lead_name = trim_space input.full_name;
  lead_email = input.email;
  phone = input.phone;
  country = input.country;
  city = input.city;
  portal_website = input.portal_website;
  source = input.source;
  source_meta_profile_name = input.source_meta_profile_name;
  language = input.language;
  client_profile = input.client_profile;
  qualification_status = stored_status input;
  lead_score = input.lead_score;
  notes = input.notes;
  first_client_message_at = input.first_client_message_at;
  first_agent_message_at = input.first_agent_message_at;
  first_response_minutes = input.first_response_minutes;
  first_response_proof_path = optional_proof_path input.first_response_proof_path;
  created_at = value_or input.created_at l.created_at;
  qualification_entered_at = if status_changed then some now else l.qualification_entered_at;
  updated_at = now;
}

abbrev pub write_edit : ℕ → String → CreateLeadInput → Bool → Db → Db
write_edit now id input status_changed d = record d {
  leads = update (is_lead id) (edited now input status_changed) d.leads;
}

abbrev pub edit_change : ℕ → String → CreateLeadInput → LeadRow → Change
edit_change now id input l = record {
  lead_id = id;
  from_status = l.qualification_status;
  to_status = stored_status input;
  actor_id = trim_space input.created_by_id;
  reason = "";
  source = "update";
  at = now;
}

unfoldable pub edit_body : String → ℕ → String → CreateLeadInput → LeadRow → M (Unit {0})
unfolding insert_qualification_log optional_proof_path canonicalize_qualification
edit_body uuid now id input l =
    exec (λ d. count (is_lead id) d.leads) (write_edit now id input (is_status_changed input l))
    >>= λ rows.
        refuse_if (eqb rows 0) (message "lead not found")
        >> (if is_status_changed input l
            then insert_qualification_log uuid now (edit_change now id input l)
            else pure tt)

unfoldable pub update_lead : String → ℕ → String → CreateLeadInput → M (Unit {0})
unfolding lead_or_not_found edit_body canonicalize_qualification
update_lead uuid now id input =
    refuse_if (trim_space id == "") (message "lead id is required")
    >> refuse_if (is_too_long input) (message "full name must be at most 200 characters")
    >> lead_or_not_found id
    >>= λ l.
        refuse_if (not (is_allowed_source input.source) && not (input.source == l.source))
          (message "invalid source")
        >> refuse_if (is_bad_status input l) (message "invalid qualification status")
        >> refuse_if (bad_score input) (message "lead score must be between 0 and 100")
        >> refuse_if (bad_response input)
            (message "first response duration must be between 0 minutes and 7 days")
        >> transact (edit_body uuid now id input l)
