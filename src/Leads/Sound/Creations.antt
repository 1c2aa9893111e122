-- ===== src/Leads/Sound/Creations.antt =====
-- leads.go, `Create`: it keeps the rows sound, and the lead that it makes is new.
use leadflow_v3_server.Base.{
  ℕ, String, Bool, false, List, [], ◌∷◌, ◌≡◌, refl, sym, ap, ◌∙◌, any, All, trim_space, arith,
  eq_refl, Bool-cases, inl, inr,
}
use leadflow_v3_server.Db.{Db, LeadRow, QualificationRow}
use leadflow_v3_server.Db.{Conn}
use leadflow_v3_server.Db.Triples.{OnOk, Runs-read}
use leadflow_v3_server.Leads.Assign.{attempt}
use leadflow_v3_server.Leads.Assign.Steps.{Runs-attempt_query}
use leadflow_v3_server.Db.Statements.{Result, ok, err, query, exec, database, ◌>>◌}
use leadflow_v3_server.Db.Triples.{Runs, Runs-pure, Runs-exec, Runs-exec_last, Runs-bind}
use leadflow_v3_server.Leads.Log.{is_lead, entered, log_row, logged, is_unlogged}
use leadflow_v3_server.Leads.Edit.{CreateLeadInput, value_or}
use leadflow_v3_server.Leads.Edit.Create.{
  insert_row, new_lead, add_lead, is_taken, created_detail, name_of, log_created, first_change,
  stamp_first, create_body,
}
use leadflow_v3_server.Leads.Assign.Rows.{Absent}
use leadflow_v3_server.Leads.Sound.{
  IsSound, IsSound-of, IsSound-IsKeyed, IsSound-rows, RowSound, IsSettled,
}
use leadflow_v3_server.Leads.Sound.Reading.{inserted-Runs}
use leadflow_v3_server.Leads.Sound.Kept.{IsSound-written, RowSound-elsewhere, Agrees-front}

pub not_taken : (id : String) (ls : List LeadRow) → any (is_lead id) ls ≡ false → Absent id ls
not_taken id [] h = tt
not_taken id (l ∷ ls) h = (ground arith, not_taken id ls (ground arith))

others :
    (id : String) (log : List QualificationRow) (row : QualificationRow) (ls : List LeadRow)
    → row.lead_id ≡ id
    → Absent id ls
    → All (RowSound log) ls
    → All (RowSound (row ∷ log)) ls
others id log row [] e b a = tt
others id log row (l ∷ ls) e b a =
    (RowSound-elsewhere id log row e l b.0 a.0, others id log row ls e b.1 a.1)

insert_row-Runs :
    (taken : Db → Bool) (write : Db → Db) (d : Db)
    → Runs (insert_row taken write) d (λ _ d'. (taken d ≡ false) × (d' ≡ write d))
unfolding insert_row exec Runs
insert_row-Runs taken write d c p = elim (Bool-cases (taken c.db)) [
  | inl e ↦ rw e tt
  | inr e ↦ rw e (
      weaken_OnOk (exec (λ _. tt) write c) (ap taken (sym p) ∙ e)
        (Runs-exec_last database (λ _. tt) write d c p))
]
  where
    weaken_OnOk :
        (r : Result (Unit {0}) × Conn)
        → taken d ≡ false
        → OnOk (λ a d'. (d' ≡ write d) × (a ≡ tt)) r
        → OnOk (λ _ d'. (taken d ≡ false) × (d' ≡ write d)) r
    weaken_OnOk (ok a, c') t h = (t, h.0)
    weaken_OnOk (err x, c') t h = tt

module _ (lead_id handoff_id log_id : String) (now : ℕ) (input : CreateLeadInput)
    (status created_by : String) where
  abbrev pub born : LeadRow
  born = new_lead now lead_id input status created_by

  abbrev pub entry : QualificationRow
  entry =
      log_row log_id now (first_change (value_or input.created_at now) lead_id status created_by)

  -- The database after a creation whose hand-over says `detail`.
  abbrev pub after : String → Db → Db
  after detail d =
      let at = value_or input.created_at now in
      stamp_first lead_id at
        (logged entry (log_created handoff_id at lead_id created_by detail (add_lead born d)))

  pub create_body-Runs :
      (d : Db)
      → is_unlogged (first_change (value_or input.created_at now) lead_id status created_by) ≡ false
      → Runs (create_body lead_id handoff_id log_id now input status created_by) d (λ id d'.
        (id ≡ lead_id) × (is_taken lead_id d ≡ false) × (detail : String) × (d' ≡ after detail d))
  unfolding create_body exec ◌>>◌
  create_body-Runs d u =
      let at = value_or input.created_at now in
      Runs-bind (insert_row (is_taken lead_id) (add_lead born)) _ d
        (λ _ d'. (is_taken lead_id d ≡ false) × (d' ≡ add_lead born d)) _
        (insert_row-Runs (is_taken lead_id) (add_lead born) d)
        λ _ d₁ q₁.
          Runs-read (attempt (query (name_of created_by))) _ d₁ (λ _. Unit {0}) _
            (Runs-attempt_query (name_of created_by) d₁ _ (refl, tt) (refl, tt))
            λ name _.
              Runs-exec database _
                (log_created handoff_id at lead_id created_by (created_detail name)) _ d₁ _
                (Runs-bind _ _ _ _ _
                  (inserted-Runs log_id now (first_change at lead_id status created_by) _ u)
                  λ _ d₂ q₂. Runs-exec database _ (stamp_first lead_id at) _ d₂ _ (
                    Runs-pure lead_id _ _ (
                      refl,
                      q₁.0,
                      created_detail name,
                      (ap (stamp_first lead_id at) (
                          q₂
                          ∙ ap
                              (λ x. logged entry (
                                log_created handoff_id at lead_id created_by (created_detail name)
                                  x))
                              q₁.1)),
                    )))

  born-IsSettled : IsSettled born
  born-IsSettled = (refl, λ h. cc)

  pub after-IsSound :
      (d : Db) (detail : String)
      → IsSound d
      → is_taken lead_id d ≡ false
      → trim_space lead_id ≡ lead_id
      → IsSound (after detail d)
  after-IsSound d detail s n t =
      let b = not_taken lead_id d.leads n in
      let at = value_or input.created_at now in
      let made : Db =
        logged entry (log_created handoff_id at lead_id created_by detail (add_lead born d)) in
      IsSound-written lead_id (entered at) (λ l. refl) made born
        (IsSound-of made (b, IsSound-IsKeyed d s)
          (
            (t, Agrees-front d.qualification_log entry born t refl, born-IsSettled),
            others lead_id d.qualification_log entry d.leads t b (IsSound-rows d s),
          ))
        (rw (eq_refl lead_id) refl) refl (λ q. q)
