-- ===== src/Leads/Delete/Tests.antt =====
-- assign.go: a deletion on a small workspace.
use leadflow_v3_server.Base.{◌≡◌, refl, [], ◌∷◌, trim_space}
use leadflow_v3_server.Db.Statements.{ok, ◌>>◌, refuse_if, transact, exec}
use leadflow_v3_server.Db.Triples.{Runs}
use leadflow_v3_server.Db.Totals.{Works}
use leadflow_v3_server.Leads.Delete.Success.{delete_leads-works}
use leadflow_v3_server.Db.Samples.{workspace, calm}
use leadflow_v3_server.Leads.Visibility.{LeadScope, in_scope}
use leadflow_v3_server.Leads.Delete.{nonblank_ids, delete_leads}
use leadflow_v3_server.Leads.Delete.References.{delete_leads-IsPurged, IsPurged}

abbrev of_deputy : LeadScope
of_deputy = record {
  created_by_id = "deputy";
  team_id = "";
  sales_exec_id = "";
  analyst_team_lead_id = "";
  analyst_team_name = "";
}

delete_leads-IsPurged_example :
    Runs
      (delete_leads (λ s. s) ("one" ∷ []) of_deputy)
      workspace
      (IsPurged (λ s. s) of_deputy (nonblank_ids ("one" ∷ [])) workspace)
delete_leads-IsPurged_example =
    delete_leads-IsPurged (λ s. s) ("one" ∷ []) of_deputy workspace (refl, tt)

-- The deletion succeeds.
delete_leads_run : (delete_leads (λ s. s) ("one" ∷ []) of_deputy calm).0 ≡ ok 1
unfolding delete_leads ◌>>◌ refuse_if trim_space transact exec in_scope
delete_leads_run = refl

delete_leads-works_example :
    Works
      (delete_leads (λ s. s) ("one" ∷ []) of_deputy)
      workspace
      (IsPurged (λ s. s) of_deputy (nonblank_ids ("one" ∷ [])) workspace)
unfolding nonblank_ids trim_space
delete_leads-works_example =
    delete_leads-works (λ s. s) ("one" ∷ []) of_deputy workspace (refl, tt) refl refl refl
