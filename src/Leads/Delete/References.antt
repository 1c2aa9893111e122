-- ===== src/Leads/Delete/References.antt =====
-- assign.go, `DeleteLeads`: the hand-over log keeps referring to leads that exist, and the count is right.
use leadflow_v3_server.Base.{
  ℕ, ◌+◌, String, Bool, true, not, ◌&&◌, List, [], ◌∷◌, ◌==◌, ◌≡◌, refl, sym, subst, any, count,
  keep, length, All, arith, inl, inr, Bool-cases,
}
use leadflow_v3_server.Db.{Db, LeadRow, HandoffRow}
use leadflow_v3_server.Db.Statements.{◌>>◌, exec, exec_or, message, database}
use leadflow_v3_server.Db.Triples.{
  Runs, Runs-refuse, Runs-exec, Runs-exec_last, Runs-transact, Runs-weaken,
}
use leadflow_v3_server.Leads.Visibility.{LeadScope, in_scope}
use leadflow_v3_server.Leads.Delete.{
  nonblank_ids, is_doomed, drop_handoffs, drop_leads, delete_leads,
}

-- The foreign key of "LeadHandoffLog".
abbrev pub refers : List LeadRow → HandoffRow → Bool
refers leads h = any (λ l. l.id == h.lead_id) leads

refers-keep :
    (p : LeadRow → Bool) (h : HandoffRow) (ls : List LeadRow)
    → refers ls h ≡ true
    → not (any (λ l. l.id == h.lead_id && p l) ls) ≡ true
    → refers (keep (λ l. not (p l)) ls) h ≡ true
refers-keep p h [] e n = e
refers-keep p h (l ∷ ls) e n = ground (arith, refers-keep p h ls)

All-refers :
    (p : LeadRow → Bool) (ls : List LeadRow) (hs : List HandoffRow)
    → All (λ h. refers ls h ≡ true) hs
    → All
        (λ h. refers (keep (λ l. not (p l)) ls) h ≡ true)
        (keep (λ h. not (any (λ l. l.id == h.lead_id && p l) ls)) hs)
All-refers p ls [] a = tt
All-refers p ls (h ∷ hs) a = elim (Bool-cases (any (λ l. l.id == h.lead_id && p l) ls)) [
  | inl e ↦ rw e (All-refers p ls hs a.1)
  | inr e ↦ rw e (refers-keep p h ls a.0 (rw e refl), All-refers p ls hs a.1)
]

count-keep :
    (p : LeadRow → Bool) (ls : List LeadRow)
    → count p ls + length (keep (λ l. not (p l)) ls) ≡ length ls
count-keep p [] = refl
count-keep p (l ∷ ls) = ground (arith, count-keep p ls)

-- The leads that go: the selected ones in the caller's scope.
abbrev pub goes : (String → String) → LeadScope → List String → Db → LeadRow → Bool
goes fold_key scope ids d l = any (λ x. x == l.id) ids && in_scope fold_key scope d.users l

abbrev pub goes_with : (String → String) → LeadScope → List String → Db → String → Bool
goes_with fold_key scope ids d id = any (λ l. l.id == id && goes fold_key scope ids d l) d.leads

-- What a successful deletion leaves: exactly the leads that do not go, with their hand-overs and entries of
-- the status log; the count reported and the leads left make up the leads there were, and the hand-overs
-- refer to leads that are left.
pub record IsPurged (fold_key : String → String) (scope : LeadScope) (ids : List String) (d : Db)
    (n : ℕ) (d' : Db) : Type 0 where
  pub counted : n + length d'.leads ≡ length d.leads
  pub leads : d'.leads ≡ keep (λ l. not (goes fold_key scope ids d l)) d.leads
  pub handoffs : d'.handoffs ≡ keep (λ h. not (goes_with fold_key scope ids d h.lead_id)) d.handoffs
  pub entries :
      d'.qualification_log
      ≡ keep (λ r. not (goes_with fold_key scope ids d r.lead_id)) d.qualification_log
  pub referring : All (λ h. refers d'.leads h ≡ true) d'.handoffs
  pub others :
      (d'.users ≡ d.users)
      × ((d'.teams ≡ d.teams) × ((d'.transfers ≡ d.transfers) × (d'.api_keys ≡ d.api_keys)))

-- If every entry of the hand-over log refers to a lead, a deletion that succeeds keeps it so; it removes exactly
-- the leads that are selected and in the caller's scope, with their hand-overs and the entries of their
-- status log, as many as it reports, and keeps all other leads, hand-overs, entries, accounts, teams,
-- transfers and API keys.
pub delete_leads-IsPurged :
    (fold_key : String → String) (raw_ids : List String) (scope : LeadScope) (d : Db)
    → All (λ h. refers d.leads h ≡ true) d.handoffs
    → Runs
        (delete_leads fold_key raw_ids scope)
        d
        (IsPurged fold_key scope (nonblank_ids raw_ids) d)
unfolding delete_leads exec exec_or ◌>>◌
delete_leads-IsPurged fold_key raw_ids scope d a =
    let ids = nonblank_ids raw_ids in
    let p = is_doomed fold_key scope ids d in
    Runs-refuse _ (message "no leads selected") _ d _ λ _.
      Runs-refuse _ (message "no leads selected") _ d _ λ _.
        Runs-refuse _ (message "too many leads selected (max 100)") _ d _ λ _. Runs-transact _ d _ (
          Runs-exec database _ (drop_handoffs fold_key scope ids) _ d _ (
            Runs-weaken _ _ _ _ (Runs-exec_last database _ (drop_leads fold_key scope ids) _)
              λ n d' h. subst (IsPurged fold_key scope ids d n) (sym h.0) (record {
                counted =
                    subst (λ m. m + length (drop_leads fold_key scope ids d).leads ≡ length d.leads)
                      (sym h.1) (count-keep p d.leads);
                leads = refl;
                handoffs = refl;
                entries = refl;
                referring = All-refers p d.leads d.handoffs a;
                others = (refl, (refl, (refl, refl)));
              })))
