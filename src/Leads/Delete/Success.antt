-- ===== src/Leads/Delete/Success.antt =====
-- assign.go, `DeleteLeads`: when a deletion succeeds.
use leadflow_v3_server.Base.{String, true, false, List, ◌≡◌, eqb, ltb, length, All}
use leadflow_v3_server.Db.{Db}
use leadflow_v3_server.Db.Statements.{◌>>◌, exec, message, database}
use leadflow_v3_server.Db.Totals.{
  Works, Works-refuse, Works-transact, Works-exec, Works-exec_last, Works-Runs,
}
use leadflow_v3_server.Leads.Visibility.{LeadScope}
use leadflow_v3_server.Leads.Delete.{nonblank_ids, drop_handoffs, drop_leads, delete_leads}
use leadflow_v3_server.Leads.Delete.References.{refers, IsPurged, delete_leads-IsPurged}

-- With a server that answers, a selection of one to a hundred ids that are not blank is deleted as far as it
-- is in scope: the call succeeds, and what `delete_leads-IsPurged` states of a success holds.
pub delete_leads-works :
    (fold_key : String → String) (raw_ids : List String) (scope : LeadScope) (d : Db)
    → All (λ h. refers d.leads h ≡ true) d.handoffs
    → eqb (length raw_ids) 0 ≡ false
    → eqb (length (nonblank_ids raw_ids)) 0 ≡ false
    → ltb 100 (length (nonblank_ids raw_ids)) ≡ false
    → Works
        (delete_leads fold_key raw_ids scope)
        d
        (IsPurged fold_key scope (nonblank_ids raw_ids) d)
unfolding delete_leads exec ◌>>◌
delete_leads-works fold_key raw_ids scope d a some_ids nonblank few =
    let ids = nonblank_ids raw_ids in
    Works-Runs _ d (λ _ _. Unit) _
      (Works-refuse _ (message "no leads selected") _ d _ some_ids (
        Works-refuse _ (message "no leads selected") _ d _ nonblank (
          Works-refuse _ (message "too many leads selected (max 100)") _ d _ few (
            Works-transact _ d _ (
              Works-exec database _ (drop_handoffs fold_key scope ids) _ d _
                (Works-exec_last database _ (drop_leads fold_key scope ids) _ _ tt))))))
      (delete_leads-IsPurged fold_key raw_ids scope d a)
