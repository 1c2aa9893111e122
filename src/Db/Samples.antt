-- ===== src/Db/Samples.antt =====
-- A small workspace on which the tests run.
use leadflow_v3_server.Base.{ℕ, String, Option, none, some, false, [], ◌∷◌}
use leadflow_v3_server.Roles.{
  role_superadmin, role_main_team_lead, role_sales_executive, role_analyst_team_lead,
  role_lead_analyst,
}
use leadflow_v3_server.Db.{Db, UserRow, LeadRow, TeamRow, Conn}

abbrev account : String → String → Option String → ℕ → UserRow
account id role team created = record {
  id = id;
  email = "a@b.c";
  name = "Name";
  role = role;
  team_id = team;
  analyst_team_name = none;
  manager_id = none;
  is_active = none;
  active_session_hash = none;
  active_session_set_at = none;
  created_at = created;
  updated_at = created;
}

abbrev pub root : UserRow
root = account "root" role_superadmin none 1

abbrev pub deputy : UserRow
deputy = account "deputy" role_superadmin none 2

abbrev pub captain : UserRow
captain = account "captain" role_main_team_lead (some "red") 3

abbrev pub seller : UserRow
seller = account "seller" role_sales_executive (some "red") 4

abbrev pub skipper : UserRow
skipper = account "skipper" role_main_team_lead (some "blue") 5

abbrev pub guide : UserRow
guide = record (account "guide" role_analyst_team_lead none 6) { analyst_team_name = some "north" }

abbrev pub finder : UserRow
finder = account "finder" role_lead_analyst none 7

abbrev lead : String → String → Option String → LeadRow
lead id status exec_id = record {
  id = id;
  lead_name = "Lead";
  qualification_status = status;
  sales_stage = some "WITH_EXECUTIVE";
  created_by_id = some "deputy";
  team_id = some "red";
  assigned_main_team_lead_id = some "captain";
  assigned_sales_exec_id = exec_id;
  not_appropriate_by_id = none;
  exec_assigned_at = none;
  exec_deadline_at = none;
  updated_at = 1;
  phone = none;
  lead_email = none;
  country = none;
  city = none;
  portal_website = none;
  source = "Meta WhatsApp";
  source_meta_profile_name = none;
  language = none;
  client_profile = none;
  lead_score = none;
  notes = none;
  created_at = 1;
  first_client_message_at = none;
  first_agent_message_at = none;
  first_response_minutes = none;
  first_response_proof_path = none;
  qualification_entered_at = none;
  not_appropriate = false;
  not_appropriate_reason = none;
  not_appropriate_at = none;
  closed_at = none;
  closed_revenue = none;
  initial_payment = none;
  estimated_deal_value = none;
  deal_currency = "AUD";
  lost_notes = none;
  internal_reassign_count = 0;
}

abbrev pub lead_one : LeadRow
lead_one = lead "one" "QUALIFIED" (some "seller")

abbrev pub lead_two : LeadRow
lead_two = lead "two" "QUALIFIED" none

abbrev team : String → String → TeamRow
team id lead_id = record {
  id = id;
  name = id;
  main_team_lead_id = lead_id;
  analyst_team_lead_id = none;
  updated_at = 1;
}

abbrev pub red : TeamRow
red = team "red" "captain"

abbrev pub blue : TeamRow
blue = team "blue" "skipper"

abbrev pub workspace : Db
workspace = record {
  users = root ∷ deputy ∷ captain ∷ seller ∷ skipper ∷ [];
  leads = lead_one ∷ lead_two ∷ [];
  teams = red ∷ blue ∷ [];
  handoffs =
      record {
        id = "h";
        created_at = 1;
        lead_id = "one";
        action = "NOTE";
        actor_id = "root";
        detail = "";
      }
      ∷ [];
  transfers = [];
  api_keys = [];
  qualification_log = [];
}

abbrev pub calm : Conn
calm = record { db = workspace; replies = [] }
