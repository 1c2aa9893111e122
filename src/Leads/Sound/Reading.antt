-- ===== src/Leads/Sound/Reading.antt =====
-- leads.go, `GetByID`, and qualification_log.go, `recordQualificationChange` and
-- `ensureQualificationLogSeeded`: reading a lead may seed its log, and keeps the rows sound.
use leadflow_v3_server.Base.{
  ℕ, String, some, Bool, false, false≢true, ◌==◌, ◌≡◌, refl, sym, ap, ◌∙◌, subst, find, count,
  trim_space, trim_space_idem, ◌||◌, eqb, if◌then◌else◌,
}
use leadflow_v3_server.Leads.Assign.{attempt}
use leadflow_v3_server.Db.Outcomes.{Leaves-then}
use leadflow_v3_server.Base.{[]}
use leadflow_v3_server.Db.{Db, LeadRow}
use leadflow_v3_server.Db.Statements.{M, pure, ◌>>=◌, ◌>>◌, query, exec, database}
use leadflow_v3_server.Db.Triples.{Runs, Runs-if, Runs-bind, Runs-exec_last, Runs-weaken}
use leadflow_v3_server.Db.Outcomes.{
  Leaves, Leaves-pure, Leaves-if, Leaves-bind, Leaves-query, Leaves-query_last, Leaves-read,
  Leaves-transact,
}
use leadflow_v3_server.Leads.Log.{
  Change, is_lead, is_unlogged, log_row, logged, entered, stamp_entered, insert_qualification_log,
  record_qualification_change, ensure_qualification_log_seeded, backfill, is_entry_of,
}
use leadflow_v3_server.Leads.Detail.{
  read_lead, get_by_id, with_history, history_query, history_or_empty, detail_of,
}
use leadflow_v3_server.Leads.Log.History.{list_qualification_history}
use leadflow_v3_server.Leads.Assign.Steps.{Leaves-attempt}
use leadflow_v3_server.Leads.Sound.{IsSound, RowSound, found_row, IsSound-rows}
use leadflow_v3_server.Leads.Sound.Kept.{IsSound-logged}
use leadflow_v3_server.Leads.Sound.Rules.{
  Leaves-ignore, Leaves-found_or, found_or-Runs, read_lead-found,
}

-- An entry that is written.
pub inserted-Runs :
    (uuid : String) (now : ℕ) (ch : Change) (d : Db)
    → is_unlogged ch ≡ false
    → Runs (insert_qualification_log uuid now ch) d (λ _ d'. d' ≡ logged (log_row uuid now ch) d)
unfolding insert_qualification_log exec
inserted-Runs uuid now ch d u =
    Runs-if (is_unlogged ch) _ _ d _ (λ v. absurd (false≢true (sym u ∙ v)))
      (λ _.
        Runs-weaken _ d _ _ (Runs-exec_last database _ (logged (log_row uuid now ch)) d)
          λ _ d' q. q.0)

-- An entry that says the status that the row has.
change-Leaves :
    (uuid : String) (now : ℕ) (ch : Change) (d : Db) (found : LeadRow)
    → IsSound d
    → find (is_lead (trim_space ch.lead_id)) d.leads ≡ some found
    → trim_space ch.to_status ≡ trim_space found.qualification_status
    → Leaves (record_qualification_change uuid now ch) d IsSound
unfolding record_qualification_change exec ◌>>◌
change-Leaves uuid now ch d found s e t =
    Leaves-if IsSound (is_unlogged ch) _ _ d (λ _. Leaves-pure IsSound tt d s)
      λ u. Leaves-transact IsSound _ d s (
        Runs-bind _ _ d (λ _ d'. d' ≡ logged (log_row uuid now ch) d) _
          (inserted-Runs uuid now ch d u)
          λ _ d' q. Runs-weaken _ d' _ _ (Runs-exec_last database _ _ d') λ _ d'' r.
            subst IsSound (sym (r.0 ∙ ap (stamp_entered (trim_space ch.lead_id) _) q)) (
              IsSound-logged (trim_space ch.lead_id) (entered _) (λ l. refl) d found
                (log_row uuid now ch) s e refl t (λ h. h)))

seeded-Leaves :
    (uuid : String) (now : ℕ) (d : Db) (l : LeadRow) (id : String)
    → IsSound d
    → find (is_lead id) d.leads ≡ some l
    → Leaves
        (ensure_qualification_log_seeded uuid now l.id l.qualification_status l.created_at)
        d
        IsSound
unfolding ensure_qualification_log_seeded
seeded-Leaves uuid now d l id s e =
    let seed : M (Unit {0}) =
      record_qualification_change uuid now
        (backfill (trim_space l.id) (trim_space l.qualification_status) l.created_at) in
    Leaves-if IsSound (trim_space l.id == "" || trim_space l.qualification_status == "") _
      (query (λ x. count (is_entry_of (trim_space l.id)) x.qualification_log) >>= λ n.
        if eqb n 0 then seed else pure tt)
      d (λ _. Leaves-pure IsSound tt d s)
      λ _.
        Leaves-query IsSound (λ x. count (is_entry_of (trim_space l.id)) x.qualification_log)
          (λ n. if eqb n 0 then seed else pure tt) d s
          (Leaves-if IsSound (eqb (count (is_entry_of (trim_space l.id)) d.qualification_log) 0) _ _
            d
            (λ _.
              change-Leaves uuid now
                (backfill (trim_space l.id) (trim_space l.qualification_status) l.created_at) d l s
                (subst (λ x. find (is_lead x) d.leads ≡ some l)
                  (sym (trim_space_idem l.id ∙ here.0.0 ∙ here.1)) e)
                (trim_space_idem l.qualification_status))
            (λ _. Leaves-pure IsSound tt d s))
  where
    here : RowSound d.qualification_log l × (l.id ≡ id)
    here = found_row id (RowSound d.qualification_log) l d.leads e (IsSound-rows d s)

with_history-Leaves :
    (id_before : String → String → Bool) (now : ℕ) (row : LeadRow × String) (d : Db)
    → IsSound d
    → Leaves (with_history id_before now row) d IsSound
unfolding with_history
with_history-Leaves id_before now row d s =
    Leaves-bind IsSound (history_query id_before now row.0.id)
      (λ history. pure (detail_of row.0 row.1 (history_or_empty history))) d
      (Leaves-if IsSound (trim_space row.0.id == "") (pure (some []))
        (attempt (query (λ x. some (list_qualification_history id_before now row.0.id x)))) d
        (λ _. Leaves-pure IsSound (some []) d s)
        λ _.
          Leaves-attempt IsSound
            (query (λ x. some (list_qualification_history id_before now row.0.id x))) d
            (Leaves-query_last IsSound _ d s))
      λ history d' s'. Leaves-pure IsSound _ d' s'

-- Reading a lead keeps the rows sound, whatever the server answers.
pub get_by_id-Leaves :
    (id_before : String → String → Bool) (uuid : String) (now : ℕ) (id : String) (d : Db)
    → IsSound d
    → Leaves (get_by_id id_before uuid now id) d IsSound
unfolding get_by_id
get_by_id-Leaves id_before uuid now id d s = Leaves-query IsSound (read_lead id) _ d s (
    Leaves-read IsSound _ _ d (λ row. read_lead id d ≡ some row) s
      (Leaves-found_or (λ x. x ≡ d) _ (read_lead id d) d refl)
      (Runs-weaken _ d _ _ (found_or-Runs _ (read_lead id d) d) λ row d' q. q.1)
      λ row e.
        Leaves-then IsSound _ _ d
          (Leaves-ignore IsSound _ d
            (seeded-Leaves uuid now d row.0 id s (read_lead-found id d row e).0))
          λ d' s'. with_history-Leaves id_before now row d' s')
