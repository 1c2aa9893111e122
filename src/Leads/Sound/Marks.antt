-- ===== src/Leads/Sound/Marks.antt =====
-- leads.go, `MarkNotAppropriate`: it keeps the rows sound.
use leadflow_v3_server.Base.{
  ℕ, String, some, Bool, true, false, false≢true, ◌==◌, ◌≡◌, refl, sym, ◌∙◌, subst, find,
  trim_space, trim_space_idem, ltb, length, codes, eq_iff, count, if◌then◌else◌,
}
use leadflow_v3_server.Db.{Db, LeadRow}
use leadflow_v3_server.Db.Statements.{pure, query, exec, database}
use leadflow_v3_server.Db.Triples.{Runs, Runs-pure, Runs-if, Runs-refuse, Runs-exec}
use leadflow_v3_server.Db.Outcomes.{
  Leaves, Leaves-fail, Leaves-if, Leaves-refuse, Leaves-read, Leaves-transact, Leaves-then,
  Leaves-query_last,
}
use leadflow_v3_server.Leads.Log.{is_lead, insert_qualification_log}
use leadflow_v3_server.Leads.Assign.{attempt}
use leadflow_v3_server.Leads.Assign.Steps.{Leaves-attempt, Runs-attempt_query}
use leadflow_v3_server.Leads.Detail.{LeadDetail}
use leadflow_v3_server.Leads.Status.{
  find_lead, mark_body, mark_change, write_mark, marked, mark_not_appropriate, status_or_blank,
  same_reason, not_appropriate_reason_min, not_appropriate_reason_max, is_unmarked,
}
use leadflow_v3_server.Leads.Sound.{IsSound, IsSound-IsKeyed, update-unmarked}
use leadflow_v3_server.Leads.Sound.Kept.{insert-Runs, IsSound-written, written}
use leadflow_v3_server.Leads.Sound.Reading.{get_by_id-Leaves}
use leadflow_v3_server.Leads.Sound.Statuses.{looked_up}

-- What the second read knows: the status of the row, or nothing.
abbrev Reads : LeadRow → String → Type 0
Reads l current =
    (trim_space current == "") ≡ false → trim_space current ≡ trim_space l.qualification_status

module _ (uuid : String) (now : ℕ) (id reason actor_id : String) (l : LeadRow) where
  abbrev set_mark : LeadRow → LeadRow
  set_mark = marked now reason actor_id

  irrelevant_already :
      (current : String)
      → Reads l current
      → (trim_space current == "IRRELEVANT") ≡ true
      → trim_space "IRRELEVANT" ≡ trim_space l.qualification_status
  unfolding trim_space
  irrelevant_already current r h =
      let e : trim_space current ≡ "IRRELEVANT" = (eq_iff (trim_space current) "IRRELEVANT").0 h in
      sym e ∙ r (subst (λ x. (x == "") ≡ false) (sym e) refl)

  mark_body-Runs :
      (current : String) (d : Db)
      → IsSound d
      → find (is_lead id) d.leads ≡ some l
      → l.not_appropriate ≡ false
      → Reads l current
      → trim_space id ≡ id
      → (id == "") ≡ false
      → Runs (mark_body uuid now id reason actor_id current) d (λ _. IsSound)
  unfolding mark_body exec trim_space
  mark_body-Runs current d s e m r t n =
      Runs-exec database (λ x. count (is_unmarked id) x.leads) (write_mark now id reason actor_id) _
        d _
        (Runs-refuse _ _ _ _ _ λ _.
          subst
            (λ ls.
              Runs
                (if trim_space current == "IRRELEVANT"
                  then pure tt
                  else insert_qualification_log uuid now
                      (mark_change now id current reason actor_id))
                (record d { leads = ls }) (λ _. IsSound))
            (sym (update-unmarked id set_mark l d.leads (IsSound-IsKeyed d s) e m))
            (Runs-if (trim_space current == "IRRELEVANT") _ _ (written id set_mark (λ x. refl) d) _
              (λ h. Runs-pure tt (written id set_mark (λ x. refl) d) _ (
                IsSound-written id set_mark (λ x. refl) d l s e (irrelevant_already current r h)
                  (λ q. q)))
              (λ _.
                insert-Runs id set_mark (λ x. refl) uuid now
                  (mark_change now id current reason actor_id) d l s e t n refl refl r (λ q. q))))

  Reads-again :
      (d : Db)
      → find (is_lead id) d.leads ≡ some l
      → Runs (attempt (query (find_lead id))) d (λ again d'. Reads l (status_or_blank again))
  unfolding trim_space
  Reads-again d e =
      Runs-attempt_query (find_lead id) d _
        (subst (λ o. Reads l (status_or_blank o)) (sym e) (λ _. refl))
        (λ h. absurd (false≢true (sym h)))

-- Marking a lead as not appropriate keeps the rows sound, whatever the server answers.
pub mark_not_appropriate-Leaves :
    (id_before : String → String → Bool) (uuid : String) (now : ℕ)
    (raw_id raw_reason raw_actor : String) (d : Db)
    → IsSound d
    → Leaves (mark_not_appropriate id_before uuid now raw_id raw_reason raw_actor) d IsSound
unfolding mark_not_appropriate
mark_not_appropriate-Leaves id_before uuid now raw_id raw_reason raw_actor d s =
    let id = trim_space raw_id in
    let reason = trim_space raw_reason in
    let actor_id = trim_space raw_actor in
    Leaves-refuse IsSound (id == "") _ _ d s λ n. Leaves-refuse IsSound (reason == "") _ _ d s λ _.
      Leaves-refuse IsSound (ltb (length (codes reason)) not_appropriate_reason_min) _ _ d s λ _.
        Leaves-refuse IsSound (ltb not_appropriate_reason_max (length (codes reason))) _ _ d s λ _.
          looked_up id _ d IsSound s λ l e.
            Leaves-if IsSound l.not_appropriate _ _ d
              (λ _.
                Leaves-if IsSound (same_reason l.not_appropriate_reason reason) _ _ d
                  (λ _. get_by_id-Leaves id_before uuid now id d s)
                  (λ _. Leaves-fail LeadDetail IsSound _ d s))
              (λ m.
                Leaves-read IsSound (attempt (query (find_lead id))) _ d
                  (λ again. Reads l (status_or_blank again)) s
                  (Leaves-attempt (λ x. x ≡ d) _ d (Leaves-query_last (λ x. x ≡ d) _ d refl))
                  (Reads-again uuid now id reason actor_id l d e)
                  λ again r.
                    Leaves-then IsSound _ _ d
                      (Leaves-transact IsSound _ d s (
                        mark_body-Runs uuid now id reason actor_id l (status_or_blank again) d s e m
                          r (trim_space_idem raw_id) n))
                      λ d' s'. get_by_id-Leaves id_before uuid now id d' s')
