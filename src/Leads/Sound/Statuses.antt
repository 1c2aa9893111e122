-- ===== src/Leads/Sound/Statuses.antt =====
-- leads.go, `UpdateQualificationStatus` and `MarkNotAppropriate`: they keep the rows sound.
use leadflow_v3_server.Base.{
  ℕ, String, some, Bool, true, false, not, ◌==◌, ◌≡◌, refl, sym, subst, find, trim_space,
  trim_space_idem, arith,
}
use leadflow_v3_server.Db.{Db, LeadRow}
use leadflow_v3_server.Db.Statements.{M, ◌>>=◌, exec, database}
use leadflow_v3_server.Db.Triples.{Runs, Runs-pure, Runs-refuse, Runs-exec, Runs-then, Runs-weaken}
use leadflow_v3_server.Db.Outcomes.{
  Leaves, Leaves-pure, Leaves-if, Leaves-refuse, Leaves-read, Leaves-transact,
}
use leadflow_v3_server.Qualification.{canonicalize_qualification}
use leadflow_v3_server.Qualification.Idempotent.{canonicalize-trimmed}
use leadflow_v3_server.Leads.Log.{is_lead}
use leadflow_v3_server.Leads.Status.{
  lead_or_not_found, patch_body, patch_change, write_status, with_status,
  update_qualification_status,
}
use leadflow_v3_server.Leads.Sound.{IsSound}
use leadflow_v3_server.Leads.Sound.Kept.{insert-Runs}
use leadflow_v3_server.Leads.Sound.Rules.{lead_or_not_found-Runs, Leaves-lead_or_not_found}

accepted : (b : Bool) → not b ≡ false → b ≡ true
accepted b h = ground arith

-- What a lookup that succeeded knows: the row stands in the table.
pub looked_up :
    {A : Type 0} (id : String) (f : LeadRow → M A) (d : Db) (I : Db → Type 0)
    → I d
    → ((l : LeadRow) → find (is_lead id) d.leads ≡ some l → Leaves (f l) d I)
    → Leaves (lead_or_not_found id >>= f) d I
looked_up id f d I i h =
    Leaves-read I (lead_or_not_found id) f d (λ l. find (is_lead id) d.leads ≡ some l) i
      (Leaves-lead_or_not_found (λ x. x ≡ d) id d refl)
      (Runs-weaken _ d _ _ (lead_or_not_found-Runs id d) λ l d' q. q.1) h

patch_body-Runs :
    (uuid : String) (now : ℕ) (id code actor_id : String) (l : LeadRow) (d : Db)
    → IsSound d
    → find (is_lead id) d.leads ≡ some l
    → trim_space id ≡ id
    → (id == "") ≡ false
    → trim_space code ≡ code
    → (code == "") ≡ false
    → Runs (patch_body uuid now id l.qualification_status code actor_id) d (λ _. IsSound)
unfolding patch_body exec
patch_body-Runs uuid now id code actor_id l d s e t n t' n' =
    Runs-exec database _ (write_status now id code) _ d _ (
      Runs-refuse _ _ _ _ _ λ _.
        Runs-then _ _ _ IsSound _
          (insert-Runs id (with_status now code) (λ r. refl) uuid now
            (patch_change now id l.qualification_status code actor_id) d l s e t n
            (subst (λ x. (x == "") ≡ false) (sym t') n') refl (λ _. refl) (λ h. h))
          λ d' s'. Runs-pure code d' _ s')

-- The change of a status keeps the rows sound, whatever the server answers.
pub update_qualification_status-Leaves :
    (uuid : String) (now : ℕ) (raw_id raw_status actor_id : String) (d : Db)
    → IsSound d
    → Leaves (update_qualification_status uuid now raw_id raw_status actor_id) d IsSound
unfolding update_qualification_status
update_qualification_status-Leaves uuid now raw_id raw_status actor_id d s =
    let id = trim_space raw_id in
    let code = canonicalize_qualification raw_status in
    Leaves-refuse IsSound (id == "") _ _ d s λ n. Leaves-refuse IsSound (not code.1) _ _ d s λ a.
      looked_up id _ d IsSound s λ l e.
        let c = canonicalize-trimmed raw_status (accepted code.1 a) in
        Leaves-if IsSound (trim_space l.qualification_status == code.0) _ _ d
          (λ _. Leaves-pure IsSound code.0 d s)
          λ _.
            Leaves-transact IsSound _ d s (
              patch_body-Runs uuid now id code.0 actor_id l d s e (trim_space_idem raw_id) n c.0
                c.1)
