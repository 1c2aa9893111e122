-- ===== src/Leads/Sound/Edits.antt =====
-- leads.go, `Update`: it keeps the rows sound.
use leadflow_v3_server.Base.{
  ℕ, String, some, true, false, false≢true, not, ◌&&◌, ◌==◌, ◌≡◌, refl, sym, ap, ◌∙◌, subst, find,
  trim_space, arith, eq_iff, Bool-cases, inl, inr,
}
use leadflow_v3_server.Db.{Db, LeadRow}
use leadflow_v3_server.Db.Statements.{exec, database}
use leadflow_v3_server.Db.Triples.{Runs, Runs-pure, Runs-if, Runs-refuse, Runs-exec}
use leadflow_v3_server.Db.Outcomes.{Leaves, Leaves-refuse, Leaves-transact}
use leadflow_v3_server.Qualification.{canonicalize_qualification}
use leadflow_v3_server.Qualification.Idempotent.{canonicalize-trimmed}
use leadflow_v3_server.Leads.Log.{is_lead}
use leadflow_v3_server.Leads.Edit.{
  CreateLeadInput, update_lead, edit_body, edit_change, edited, write_edit, stored_status,
  is_bad_status, is_status_changed, is_allowed_source, is_too_long, bad_score, bad_response,
}
use leadflow_v3_server.Leads.Sound.{IsSound, IsSound-rows, RowSound, found_row}
use leadflow_v3_server.Leads.Sound.Kept.{insert-Runs, IsSound-written, written}
use leadflow_v3_server.Leads.Sound.Statuses.{looked_up}

module _ (input : CreateLeadInput) (l : LeadRow) where
  same_status :
      is_status_changed input l ≡ false
      → trim_space (stored_status input) ≡ trim_space l.qualification_status
  same_status h =
      ground (arith, eq_iff (trim_space (stored_status input)) (trim_space l.qualification_status))

  -- A status that changes is a known one.
  changed_code :
      is_bad_status input l ≡ false
      → is_status_changed input l ≡ true
      → (trim_space (stored_status input) == "") ≡ false
  changed_code g h = elim (Bool-cases (canonicalize_qualification input.qualification_status).1) [
    | inl q ↦
        let c = canonicalize-trimmed input.qualification_status q in
        rw q (subst (λ x. (x == "") ≡ false) (sym c.0) c.1)
    | inr q ↦ absurd (false≢true (sym (unchanged q (rw q at g)) ∙ h))
  ]
    where
      unchanged :
          (canonicalize_qualification input.qualification_status).1 ≡ false
          → (true && not (input.qualification_status == l.qualification_status)) ≡ false
          → is_status_changed input l ≡ false
      unchanged q e =
          let same : input.qualification_status ≡ l.qualification_status =
            ground (arith, eq_iff input.qualification_status l.qualification_status) in
          rw q (ap not ((eq_iff _ _).1 (ap trim_space same)))

  edit_body-Runs :
      (uuid : String) (now : ℕ) (id : String) (d : Db)
      → IsSound d
      → find (is_lead id) d.leads ≡ some l
      → is_bad_status input l ≡ false
      → (trim_space id == "") ≡ false
      → Runs (edit_body uuid now id input l) d (λ _. IsSound)
  unfolding edit_body exec
  edit_body-Runs uuid now id d s e g n =
      let f = edited now input (is_status_changed input l) in
      let here : RowSound d.qualification_log l × (l.id ≡ id) =
        found_row id (RowSound d.qualification_log) l d.leads e (IsSound-rows d s) in
      let t : trim_space id ≡ id = ap trim_space (sym here.1) ∙ here.0.0 ∙ here.1 in
      Runs-exec database _ (write_edit now id input (is_status_changed input l)) _ d _ (
        Runs-refuse _ _ _ _ _ λ _.
          Runs-if (is_status_changed input l) _ _ (written id f (λ x. refl) d) _
            (λ h.
              insert-Runs id f (λ x. refl) uuid now (edit_change now id input l) d l s e t
                (subst (λ x. (x == "") ≡ false) t n) (changed_code g h) refl (λ _. refl) (λ q. q))
            (λ h.
              Runs-pure tt (written id f (λ x. refl) d) _
                (IsSound-written id f (λ x. refl) d l s e (same_status h) (λ q. q))))

-- The edit of a lead keeps the rows sound, whatever the server answers.
pub update_lead-Leaves :
    (uuid : String) (now : ℕ) (id : String) (input : CreateLeadInput) (d : Db)
    → IsSound d
    → Leaves (update_lead uuid now id input) d IsSound
unfolding update_lead
update_lead-Leaves uuid now id input d s = Leaves-refuse IsSound (trim_space id == "") _ _ d s λ n.
    Leaves-refuse IsSound (is_too_long input) _ _ d s λ _. looked_up id _ d IsSound s λ l e.
      Leaves-refuse IsSound (not (is_allowed_source input.source) && not (input.source == l.source))
        _ _ d s
        λ _. Leaves-refuse IsSound (is_bad_status input l) _ _ d s λ g.
          Leaves-refuse IsSound (bad_score input) _ _ d s λ _.
            Leaves-refuse IsSound (bad_response input) _ _ d s
              λ _. Leaves-transact IsSound _ d s (edit_body-Runs input l uuid now id d s e g n)
