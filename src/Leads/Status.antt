-- ===== src/Leads/Status.antt =====
-- leads.go, `UpdateQualificationStatus` and `MarkNotAppropriate`.
use leadflow_v3_server.Base.{
  ℕ, String, Option, none, some, Bool, true, false, not, ◌&&◌, ◌==◌, eqb, ltb, length, codes, count,
  find, update, trim_space, if◌then◌else◌,
}
use leadflow_v3_server.Db.{Db, LeadRow}
use leadflow_v3_server.Db.Statements.{
  M, pure, fail, ◌>>=◌, ◌>>◌, refuse_if, query, exec, transact, message,
}
use leadflow_v3_server.Users.{found_or}
use leadflow_v3_server.Qualification.{canonicalize_qualification}
use leadflow_v3_server.Leads.Assign.{attempt, retell}
use leadflow_v3_server.Leads.Log.{Change, is_lead, null_if_blank, insert_qualification_log}
use leadflow_v3_server.Leads.Detail.{LeadDetail, get_by_id}

abbrev pub find_lead : String → Db → Option LeadRow
find_lead id d = find (is_lead id) d.leads

-- `SELECT … FROM "Lead" WHERE id = $1`, where any error means that there is no such lead.
unfoldable pub lead_or_not_found : String → M LeadRow
unfolding retell
lead_or_not_found id =
    retell (message "lead not found") (query (find_lead id) >>= found_or (message "lead not found"))

abbrev pub with_status : ℕ → String → LeadRow → LeadRow
with_status now status l = record l {
  qualification_status = status;
  qualification_entered_at = some now;
  updated_at = now;
}

abbrev pub write_status : ℕ → String → String → Db → Db
write_status now id status d = record d {
  leads = update (is_lead id) (with_status now status) d.leads;
}

abbrev pub patch_change : ℕ → String → String → String → String → Change
patch_change now id current status actor_id = record {
  lead_id = id;
  from_status = current;
  to_status = status;
  actor_id = actor_id;
  reason = "";
  source = "patch_qual";
  at = now;
}

unfoldable pub patch_body : String → ℕ → String → String → String → String → M String
unfolding insert_qualification_log
patch_body uuid now id current status actor_id =
    exec (λ d. count (is_lead id) d.leads) (write_status now id status) >>= λ rows.
    refuse_if (eqb rows 0) (message "lead not found")
    >> insert_qualification_log uuid now (patch_change now id current status actor_id)
    >> pure status

-- The status that is stored, or the one that is already there.
unfoldable pub update_qualification_status : String → ℕ → String → String → String → M String
unfolding lead_or_not_found patch_body
update_qualification_status uuid now raw_id raw_status actor_id =
    let id = trim_space raw_id in
    let code = canonicalize_qualification raw_status in
    refuse_if (id == "") (message "lead id is required")
    >> refuse_if (not code.1) (message "invalid qualification status")
    >> lead_or_not_found id
    >>= λ l.
        if trim_space l.qualification_status == code.0
        then pure code.0
        else transact (patch_body uuid now id l.qualification_status code.0 actor_id)

abbrev pub not_appropriate_reason_min : ℕ
not_appropriate_reason_min = 10

abbrev pub not_appropriate_reason_max : ℕ
not_appropriate_reason_max = 2000

-- `WHERE id = $1 AND "notAppropriate" = FALSE`
abbrev pub is_unmarked : String → LeadRow → Bool
is_unmarked id l = l.id == id && not l.not_appropriate

abbrev pub marked : ℕ → String → String → LeadRow → LeadRow
marked now reason actor_id l = record l {
  not_appropriate = true;
  not_appropriate_reason = some reason;
  not_appropriate_at = some now;
  not_appropriate_by_id = null_if_blank actor_id;
  qualification_status = "IRRELEVANT";
  qualification_entered_at =
      if l.qualification_status == "IRRELEVANT" then l.qualification_entered_at else some now;
  updated_at = now;
}

abbrev pub write_mark : ℕ → String → String → String → Db → Db
write_mark now id reason actor_id d = record d {
  leads = update (is_unmarked id) (marked now reason actor_id) d.leads;
}

abbrev pub mark_change : ℕ → String → String → String → String → Change
mark_change now id current reason actor_id = record {
  lead_id = id;
  from_status = current;
  to_status = "IRRELEVANT";
  actor_id = actor_id;
  reason = reason;
  source = "not_appropriate";
  at = now;
}

unfoldable pub mark_body : String → ℕ → String → String → String → String → M (Unit {0})
unfolding insert_qualification_log
mark_body uuid now id reason actor_id current =
    exec (λ d. count (is_unmarked id) d.leads) (write_mark now id reason actor_id) >>= λ rows.
    refuse_if (eqb rows 0) (message "lead is already marked not appropriate")
    >> (if trim_space current == "IRRELEVANT"
        then pure tt
        else insert_qualification_log uuid now (mark_change now id current reason actor_id))

-- `existingReason != nil && strings.TrimSpace(*existingReason) == reason`
abbrev pub same_reason : Option String → String → Bool
same_reason none reason = false
same_reason (some old) reason = trim_space old == reason

-- What the second read found; its error is dropped.
abbrev pub status_or_blank : Option LeadRow → String
status_or_blank none = ""
status_or_blank (some l) = l.qualification_status

module _ (id_before : String → String → Bool) (uuid : String) where
  unfoldable pub mark_not_appropriate : ℕ → String → String → String → M LeadDetail
  unfolding lead_or_not_found attempt mark_body get_by_id
  mark_not_appropriate now raw_id raw_reason raw_actor =
      let id = trim_space raw_id in
      let reason = trim_space raw_reason in
      let actor_id = trim_space raw_actor in
      refuse_if (id == "") (message "lead id is required")
      >> refuse_if (reason == "") (message "reason is required")
      >> refuse_if (ltb (length (codes reason)) not_appropriate_reason_min)
          (message "reason must be at least 10 characters")
      >> refuse_if (ltb not_appropriate_reason_max (length (codes reason)))
          (message "reason must be at most 2000 characters")
      >> lead_or_not_found id
      >>= λ l.
          if l.not_appropriate
          then if same_reason l.not_appropriate_reason reason
            then get_by_id id_before uuid now id
            else fail (message "lead is already marked not appropriate")
          else attempt (query (find_lead id)) >>= λ again.
              transact (mark_body uuid now id reason actor_id (status_or_blank again))
              >> get_by_id id_before uuid now id
