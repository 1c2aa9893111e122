-- ===== src/Leads/Log.antt =====
-- qualification_log.go: the entries of "LeadQualificationStatusLog". `uuid` is the id of the entry, `now`
-- the clock, and 0 the zero time.
pub mod History
pub mod Timeline
use leadflow_v3_server.Base.{
  ℕ, String, Option, none, some, Bool, true, false, not, ◌&&◌, ◌||◌, List, [], ◌∷◌, ◌==◌, eqb,
  count, update, trim_space, if◌then◌else◌,
}
use leadflow_v3_server.Db.{Db, LeadRow, QualificationRow}
use leadflow_v3_server.Db.Statements.{
  M, pure, ◌>>=◌, ◌>>◌, refuse_if, query, exec, transact, Result, ok, err,
}

-- A text as a nullable column: the blank one is NULL.
abbrev pub null_if_blank : String → Option String
null_if_blank s = if trim_space s == "" then none else some (trim_space s)

-- What a writer hands to the log.
pub record Change : Type 0 where
  pub lead_id : String
  pub from_status : String
  pub to_status : String
  pub actor_id : String
  pub reason : String
  pub source : String
  pub at : ℕ

-- The early returns: no lead, no status, or no change.
abbrev pub is_unlogged : Change → Bool
is_unlogged ch =
    (trim_space ch.lead_id == "" || trim_space ch.to_status == "")
    || (not (trim_space ch.from_status == "")
        && trim_space ch.from_status == trim_space ch.to_status)

abbrev pub log_row : String → ℕ → Change → QualificationRow
log_row uuid now ch = record {
  id = uuid;
  lead_id = trim_space ch.lead_id;
  from_status = null_if_blank ch.from_status;
  to_status = trim_space ch.to_status;
  changed_at = if eqb ch.at 0 then now else ch.at;
  actor_id = null_if_blank ch.actor_id;
  reason = null_if_blank ch.reason;
  source = if trim_space ch.source == "" then "update" else trim_space ch.source;
}

abbrev pub logged : QualificationRow → Db → Db
logged row d = record d { qualification_log = row ∷ d.qualification_log }

unfoldable pub insert_qualification_log : String → ℕ → Change → M (Unit {0})
insert_qualification_log uuid now ch =
    if is_unlogged ch then pure tt else exec (λ _. tt) (logged (log_row uuid now ch))

abbrev pub is_lead : String → LeadRow → Bool
is_lead id l = l.id == id

abbrev pub entered : ℕ → LeadRow → LeadRow
entered at l = record l { qualification_entered_at = some at }

abbrev pub stamp_entered : String → ℕ → Db → Db
stamp_entered id at d = record d { leads = update (is_lead id) (entered at) d.leads }

unfoldable pub record_qualification_change : String → ℕ → Change → M (Unit {0})
unfolding insert_qualification_log
record_qualification_change uuid now ch =
    let at = if eqb ch.at 0 then now else ch.at in
    if is_unlogged ch
    then pure tt
    else transact (
        insert_qualification_log uuid now ch
        >> exec (λ _. tt) (stamp_entered (trim_space ch.lead_id) at))

abbrev pub is_entry_of : String → QualificationRow → Bool
is_entry_of id row = row.lead_id == id

-- What a seeded entry says.
abbrev pub backfill : String → String → ℕ → Change
backfill id status created_at = record {
  lead_id = id;
  from_status = "";
  to_status = status;
  actor_id = "";
  reason = "";
  source = "backfill";
  at = created_at;
}

unfoldable pub ensure_qualification_log_seeded : String → ℕ → String → String → ℕ → M (Unit {0})
unfolding record_qualification_change
ensure_qualification_log_seeded uuid now lead_id status created_at =
    let id = trim_space lead_id in
    if id == "" || trim_space status == ""
    then pure tt
    else query (λ d. count (is_entry_of id) d.qualification_log) >>= λ n.
        if eqb n 0
        then record_qualification_change uuid now (backfill id (trim_space status) created_at)
        else pure tt
