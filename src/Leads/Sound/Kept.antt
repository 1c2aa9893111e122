-- ===== src/Leads/Sound/Kept.antt =====
-- leads.go, qualification_log.go: a write to one row keeps the rows sound, with an entry in the log where
-- the status changes.
use leadflow_v3_server.Base.{
  refl, ℕ, String, some, true, false, List, ◌∷◌, ◌==◌, ◌≡◌, sym, ◌∙◌, subst, find, update, arith,
  eq_iff, trim_space,
}
use leadflow_v3_server.Db.{Db, LeadRow, QualificationRow}
use leadflow_v3_server.Db.Statements.{database, exec}
use leadflow_v3_server.Db.Triples.{Runs, Runs-pure, Runs-if, Runs-exec_last, Runs-weaken}
use leadflow_v3_server.Leads.Log.{
  Change, is_lead, is_unlogged, log_row, logged, insert_qualification_log,
}
use leadflow_v3_server.Leads.Assign.Rows.{IsKeyed-update}
use leadflow_v3_server.Leads.Sound.{
  Agrees, IsSettled, RowSound, IsSound, written_rows, found_row, All-Elsewhere,
}

-- An entry of one lead says nothing of the others.
pub RowSound-elsewhere :
    (id : String) (log : List QualificationRow) (row : QualificationRow)
    → row.lead_id ≡ id
    → (l : LeadRow) → (l.id == id) ≡ false
    → RowSound log l
    → RowSound (row ∷ log) l
RowSound-elsewhere id log row e l n s =
    let other : (row.lead_id == l.id) ≡ false =
      ground (arith, eq_iff row.lead_id l.id, eq_iff l.id id) in
    (s.0, (λ h. rw other (s.1 (rw other at h))), s.2)

-- An entry that says the status of the lead.
pub Agrees-front :
    (log : List QualificationRow) (row : QualificationRow) (l : LeadRow)
    → row.lead_id ≡ l.id
    → row.to_status ≡ trim_space l.qualification_status
    → Agrees (row ∷ log) l
Agrees-front log row l e t h =
    let mine : (row.lead_id == l.id) ≡ true = (eq_iff row.lead_id l.id).1 e in
    let said : (row.to_status == trim_space l.qualification_status) ≡ true =
      (eq_iff row.to_status (trim_space l.qualification_status)).1 t in
    rw mine (rw said refl)

module _ (id : String) (f : LeadRow → LeadRow) (same_id : (l : LeadRow) → (f l).id ≡ l.id) where
  abbrev pub written : Db → Db
  written d = record d { leads = update (is_lead id) f d.leads }

  -- A write that leaves the status as it is.
  pub IsSound-written :
      (d : Db) (found : LeadRow)
      → IsSound d
      → find (is_lead id) d.leads ≡ some found
      → trim_space (f found).qualification_status ≡ trim_space found.qualification_status
      → (IsSettled found → IsSettled (f found))
      → IsSound (written d)
  unfolding IsSound
  IsSound-written d found s e t h =
      let here : RowSound d.qualification_log found × (found.id ≡ id) =
        found_row id (RowSound d.qualification_log) found d.leads e s.1 in
      (
        IsKeyed-update _ f d.leads same_id s.0,
        written_rows id _ (RowSound d.qualification_log) f found d.leads s.0 e
            (
              subst (λ x. trim_space x ≡ x) (sym (same_id found)) here.0.0,
              (λ g. rw (same_id found) (rw t (here.0.1 (rw (same_id found) at g)))),
              h here.0.2,
            )
            (λ l n q. q) (All-Elsewhere id _ d.leads s.1),
      )

  -- A write with an entry that says the status that the row has then.
  pub IsSound-logged :
      (d : Db) (found : LeadRow) (row : QualificationRow)
      → IsSound d
      → find (is_lead id) d.leads ≡ some found
      → row.lead_id ≡ id
      → row.to_status ≡ trim_space (f found).qualification_status
      → (IsSettled found → IsSettled (f found))
      → IsSound (logged row (written d))
  unfolding IsSound
  IsSound-logged d found row s e i t h =
      let here : RowSound d.qualification_log found × (found.id ≡ id) =
        found_row id (RowSound d.qualification_log) found d.leads e s.1 in
      (
        IsKeyed-update _ f d.leads same_id s.0,
        written_rows id _ (RowSound (row ∷ d.qualification_log)) f found d.leads s.0 e
            (
              subst (λ x. trim_space x ≡ x) (sym (same_id found)) here.0.0,
              Agrees-front d.qualification_log row (f found) (i ∙ sym here.1 ∙ sym (same_id found))
                  t,
              h here.0.2,
            )
            (RowSound-elsewhere id d.qualification_log row i) (All-Elsewhere id _ d.leads s.1),
      )

  unlogged_same :
      (ch : Change)
      → (trim_space ch.lead_id == "") ≡ false
      → (trim_space ch.to_status == "") ≡ false
      → is_unlogged ch ≡ true
      → ((trim_space ch.from_status == "") ≡ false)
        × (trim_space ch.from_status ≡ trim_space ch.to_status)
  unlogged_same ch h k u =
      ground (arith, eq_iff (trim_space ch.from_status) (trim_space ch.to_status))

  -- A write to the row of `id`, and what `insertQualificationLog` does with the change of its status.
  pub insert-Runs :
      (uuid : String) (now : ℕ) (ch : Change) (d : Db) (found : LeadRow)
      → IsSound d
      → find (is_lead id) d.leads ≡ some found
      → trim_space ch.lead_id ≡ id
      → (id == "") ≡ false
      → (trim_space ch.to_status == "") ≡ false
      → trim_space (f found).qualification_status ≡ trim_space ch.to_status
      → ((trim_space ch.from_status == "") ≡ false
          → trim_space ch.from_status ≡ trim_space found.qualification_status)
      → (IsSettled found → IsSettled (f found))
      → Runs (insert_qualification_log uuid now ch) (written d) (λ _ d'. IsSound d')
  unfolding insert_qualification_log exec
  insert-Runs uuid now ch d found s e i n m t k h =
      Runs-if (is_unlogged ch) _ _ (written d) _
        (λ u. Runs-pure tt (written d) _ (
          let q : ((trim_space ch.from_status == "") ≡ false)
              × (trim_space ch.from_status ≡ trim_space ch.to_status) =
            unlogged_same ch (subst (λ x. (x == "") ≡ false) (sym i) n) m u in
          IsSound-written d found s e (t ∙ sym q.1 ∙ k q.0) h))
        (λ u.
          Runs-weaken _ (written d) _ _
            (Runs-exec_last database _ (logged (log_row uuid now ch)) (written d))
            λ _ d' q.
              subst IsSound (sym q.0)
                (IsSound-logged d found (log_row uuid now ch) s e i (sym t) h))
