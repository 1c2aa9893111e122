-- ===== src/Leads/Delete.antt =====
-- assign.go, `DeleteLeads`: the leads of a selection that are in the caller's scope, and their hand-overs.
pub mod References
pub mod Success
mod Tests
use leadflow_v3_server.Base.{
  ℕ, String, Bool, true, false, not, ◌&&◌, List, [], ◌∷◌, ◌==◌, any, count, keep, eqb, ltb, length,
  trim_space, if◌then◌else◌,
}
use leadflow_v3_server.Db.{Db, LeadRow, HandoffRow, QualificationRow}
use leadflow_v3_server.Db.Statements.{M, ◌>>=◌, ◌>>◌, refuse_if, exec, transact, message}
use leadflow_v3_server.Leads.Visibility.{LeadScope, in_scope}
use leadflow_v3_server.Leads.Assign.{max_bulk_lead_ids}

-- The loop that trims and drops blanks; repetitions stay.
unfoldable pub nonblank_ids : List String → List String
nonblank_ids [] = []
nonblank_ids (raw ∷ rest) =
    let tail = nonblank_ids rest in if trim_space raw == "" then tail else trim_space raw ∷ tail

module _ (fold_key : String → String) where
  -- `WHERE id = ANY($1) AND …`
  abbrev pub is_doomed : LeadScope → List String → Db → LeadRow → Bool
  is_doomed scope ids d l = any (λ x. x == l.id) ids && in_scope fold_key scope d.users l

  -- `WHERE "leadId" IN (SELECT id FROM "Lead" WHERE …)`
  abbrev pub is_doomed_handoff : LeadScope → List String → Db → HandoffRow → Bool
  is_doomed_handoff scope ids d h = any (λ l. l.id == h.lead_id && is_doomed scope ids d l) d.leads

  abbrev pub drop_handoffs : LeadScope → List String → Db → Db
  drop_handoffs scope ids d = record d {
    handoffs = keep (λ h. not (is_doomed_handoff scope ids d h)) d.handoffs;
  }

  -- ON DELETE CASCADE of "LeadQualificationStatusLog", in migrations/000004.
  abbrev pub is_doomed_entry : LeadScope → List String → Db → QualificationRow → Bool
  is_doomed_entry scope ids d r = any (λ l. l.id == r.lead_id && is_doomed scope ids d l) d.leads

  abbrev pub drop_leads : LeadScope → List String → Db → Db
  drop_leads scope ids d = record d {
    leads = keep (λ l. not (is_doomed scope ids d l)) d.leads;
    qualification_log = keep (λ r. not (is_doomed_entry scope ids d r)) d.qualification_log;
  }

  unfoldable pub delete_leads : List String → LeadScope → M ℕ
  unfolding nonblank_ids
  delete_leads raw_ids scope =
      let ids = nonblank_ids raw_ids in
      refuse_if (eqb (length raw_ids) 0) (message "no leads selected")
      >> refuse_if (eqb (length ids) 0) (message "no leads selected")
      >> refuse_if (ltb max_bulk_lead_ids (length ids))
          (message "too many leads selected (max 100)")
      >> transact (
          exec (λ _. tt) (drop_handoffs scope ids)
          >> exec (λ d. count (is_doomed scope ids d) d.leads) (drop_leads scope ids))
