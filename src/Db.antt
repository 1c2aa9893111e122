-- ===== src/Db.antt =====
-- The tables of migrations/ that the Go code reads and writes through SQL, with the columns that the
-- modelled statements name (`NULL` is `none`), and the handle that a statement runs on.
pub mod Statements
pub mod Triples
pub mod Totals
pub mod Outcomes
pub mod Samples
use leadflow_v3_server.Base.{ℕ, ℤ, String, Bool, Option, List}

-- "User": users.go `UserRecord`
pub record UserRow : Type 0 where
  pub id : String
  pub email : String
  pub name : String
  pub role : String
  pub team_id : Option String
  pub analyst_team_name : Option String
  pub manager_id : Option String
  pub is_active : Option Bool
  pub active_session_hash : Option String
  pub active_session_set_at : Option ℕ
  pub created_at : ℕ
  pub updated_at : ℕ

-- "Lead"
pub record LeadRow : Type 0 where
  pub id : String
  pub lead_name : String
  pub qualification_status : String
  pub sales_stage : Option String
  pub created_by_id : Option String
  pub team_id : Option String
  pub assigned_main_team_lead_id : Option String
  pub assigned_sales_exec_id : Option String
  pub not_appropriate_by_id : Option String
  pub exec_assigned_at : Option ℕ
  pub exec_deadline_at : Option ℕ
  pub updated_at : ℕ
  pub phone : Option String
  pub lead_email : Option String
  pub country : Option String
  pub city : Option String
  pub portal_website : Option String
  pub source : String
  pub source_meta_profile_name : Option String
  pub language : Option String
  pub client_profile : Option String
  pub lead_score : Option ℤ
  pub notes : Option String
  pub created_at : ℕ
  pub first_client_message_at : Option ℕ
  pub first_agent_message_at : Option ℕ
  pub first_response_minutes : Option ℤ
  pub first_response_proof_path : Option String
  pub qualification_entered_at : Option ℕ
  pub not_appropriate : Bool
  pub not_appropriate_reason : Option String
  pub not_appropriate_at : Option ℕ
  pub closed_at : Option ℕ
  pub closed_revenue : Option ℤ
  pub initial_payment : Option ℤ
  pub estimated_deal_value : Option ℤ
  pub deal_currency : String
  pub lost_notes : Option String
  pub internal_reassign_count : ℕ

-- "LeadQualificationStatusLog"
pub record QualificationRow : Type 0 where
  pub id : String
  pub lead_id : String
  pub from_status : Option String
  pub to_status : String
  pub changed_at : ℕ
  pub actor_id : Option String
  pub reason : Option String
  pub source : String

-- "Team"
pub record TeamRow : Type 0 where
  pub id : String
  pub name : String
  pub main_team_lead_id : String
  pub analyst_team_lead_id : Option String
  pub updated_at : ℕ

-- "LeadHandoffLog"
pub record HandoffRow : Type 0 where
  pub id : String
  pub created_at : ℕ
  pub lead_id : String
  pub action : String
  pub actor_id : String
  pub detail : String

-- "SalesExecTeamTransfer"
pub record TransferRow : Type 0 where
  pub id : String
  pub sales_exec_id : String
  pub from_team_id : Option String
  pub to_team_id : String
  pub transferred_by_id : String
  pub created_at : ℕ

pub record Db : Type 0 where
  pub users : List UserRow
  pub leads : List LeadRow
  pub teams : List TeamRow
  pub handoffs : List HandoffRow
  pub transfers : List TransferRow
  -- "ApiKey": the "createdById" of each
  pub api_keys : List String
  -- "LeadQualificationStatusLog", the entry that was inserted last in front
  pub qualification_log : List QualificationRow

-- How the server answers a statement: it runs, it fails (connection, timeout, a scan error), or a foreign
-- key forbids it (codes 23503 and 23001).
pub data Reply : Type 0 where
  fine failed restricted : Reply

-- The database, and the answers that the next statements will meet; past the end all run.
pub record Conn : Type 0 where
  pub db : Db
  pub replies : List Reply
