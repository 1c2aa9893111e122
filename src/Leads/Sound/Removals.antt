-- ===== src/Leads/Sound/Removals.antt =====
-- assign.go, `DeleteLeads`, and `AssignLeads` to a member: they keep the rows sound.
use leadflow_v3_server.Base.{
  trim_space, any, not, ◌&&◌, ◌||◌, eq_refl, eq_iff, arith, String, Option, none, some, Bool, true,
  false, List, [], ◌∷◌, ◌==◌, ◌≡◌, refl, sym, ap, ◌∙◌, subst, keep, update, All, Bool-cases, inl,
  inr, if◌then◌else◌, text-cases, false≢true,
}
use leadflow_v3_server.Db.{Db, LeadRow, QualificationRow}
use leadflow_v3_server.Db.Statements.{◌>>◌, exec, database}
use leadflow_v3_server.Db.Triples.{
  Runs, Runs-pure, Runs-refuse, Runs-exec, Runs-exec_last, Runs-query, Runs-bind, Runs-weaken,
}
use leadflow_v3_server.Db.Outcomes.{Leaves, Leaves-refuse, Leaves-transact}
use leadflow_v3_server.Leads.Visibility.{LeadScope}
use leadflow_v3_server.Leads.Delete.{
  is_doomed, delete_leads, drop_handoffs, drop_leads, nonblank_ids,
}
use leadflow_v3_server.Leads.Assign.{
  Plan, AssignLeadInput, assigned_row, to_member, is_target, write_assignment, log_handoff,
  only_qualified, assign_each, assign_body, assignment, early_stage,
}
use leadflow_v3_server.Leads.Assign.Rows.{Absent, IsKeyed, IsKeyed-update}
use leadflow_v3_server.Leads.Sound.{
  IsSound, IsSound-of, IsSound-IsKeyed, IsSound-rows, RowSound, has_closed_stage, is_won,
}

module _ (p : LeadRow → Bool) where
  Absent-keep : (id : String) (ls : List LeadRow) → Absent id ls → Absent id (keep p ls)
  Absent-keep id [] a = tt
  Absent-keep id (l ∷ ls) a = elim (Bool-cases (p l)) [
    | inl e ↦ rw e (a.0, Absent-keep id ls a.1)
    | inr e ↦ rw e (Absent-keep id ls a.1)
  ]

  IsKeyed-keep : (ls : List LeadRow) → IsKeyed ls → IsKeyed (keep p ls)
  IsKeyed-keep [] k = tt
  IsKeyed-keep (l ∷ ls) k = elim (Bool-cases (p l)) [
    | inl e ↦ rw e (Absent-keep l.id ls k.0, IsKeyed-keep ls k.1)
    | inr e ↦ rw e (IsKeyed-keep ls k.1)
  ]

  All-keep : (P : LeadRow → Type 0) (ls : List LeadRow) → All P ls → All P (keep p ls)
  All-keep P [] a = tt
  All-keep P (l ∷ ls) a = elim (Bool-cases (p l)) [
    | inl e ↦ rw e (a.0, All-keep P ls a.1)
    | inr e ↦ rw e (All-keep P ls a.1)
  ]

  -- No other row has the id of a row that is kept.
  Absent-any :
      (id : String) (ls : List LeadRow)
      → Absent id ls
      → any (λ l. l.id == id && not (p l)) ls ≡ false
  Absent-any id [] a = refl
  Absent-any id (l ∷ ls) a = rw a.0 (Absent-any id ls a.1)

  abbrev Stays : List LeadRow → LeadRow → Type 0
  Stays ls l = any (λ m. m.id == l.id && not (p m)) ls ≡ false

  Absent-Stays :
      (l : LeadRow) (ls ms : List LeadRow)
      → Absent l.id ms
      → All (Stays ls) (keep p ms)
      → All (Stays (l ∷ ls)) (keep p ms)
  Absent-Stays l ls [] a h = tt
  Absent-Stays l ls (m ∷ ms) a h = elim (Bool-cases (p m)) [
    | inl e ↦
        let h' = rw e at h in
        let other : (l.id == m.id) ≡ false =
          ground (arith, eq_iff l.id m.id, eq_iff m.id l.id, a.0) in
        rw e (rw other h'.0, Absent-Stays l ls ms a.1 h'.1)
    | inr e ↦ rw e (Absent-Stays l ls ms a.1 (rw e at h))
  ]

  keep-Stays : (ls : List LeadRow) → IsKeyed ls → All (Stays ls) (keep p ls)
  keep-Stays [] k = tt
  keep-Stays (l ∷ ls) k = elim (Bool-cases (p l)) [
    | inl e ↦ rw e (
      rw (eq_refl l.id) (rw e (Absent-any l.id ls k.0)),
      Absent-Stays l ls ls k.0 (keep-Stays ls k.1),
    )
    | inr e ↦ rw e (Absent-Stays l ls ls k.0 (keep-Stays ls k.1))
  ]

  All-update :
      (P : LeadRow → Type 0) (f : LeadRow → LeadRow) (ls : List LeadRow)
      → ((l : LeadRow) → P l → P (f l))
      → All P ls
      → All P (update p f ls)
  All-update P f [] h a = tt
  All-update P f (l ∷ ls) h a = elim (Bool-cases (p l)) [
    | inl e ↦ rw e (h l a.0, All-update P f ls h a.1)
    | inr e ↦ rw e (a.0, All-update P f ls h a.1)
  ]

-- The entries of a lead that stays are kept.
any-entries :
    (q doomed : QualificationRow → Bool) (log : List QualificationRow)
    → ((r : QualificationRow) → q r ≡ true → doomed r ≡ false)
    → any q (keep (λ r. not (doomed r)) log) ≡ any q log
any-entries q doomed [] h = refl
any-entries q doomed (r ∷ log) h = elim (Bool-cases (doomed r)) [
  | inl e ↦
      let off : q r ≡ false = unsaid (q r) (doomed r) (h r) e in
      rw e (rw off (any-entries q doomed log h))
  | inr e ↦ rw e (ap (λ b. q r || b) (any-entries q doomed log h))
]
  where
    unsaid : (a b : Bool) → (a ≡ true → b ≡ false) → b ≡ true → a ≡ false
    unsaid true b f e = absurd (false≢true (sym (f refl) ∙ e))
    unsaid false b f e = refl

any-not-not :
    (p : LeadRow → Bool) (id : String) (ls : List LeadRow)
    → any (λ m. m.id == id && not (not (p m))) ls ≡ any (λ m. m.id == id && p m) ls
any-not-not p id [] = refl
any-not-not p id (l ∷ ls) = ground (arith, any-not-not p id ls)

RowSound-entries :
    (p : LeadRow → Bool) (ls : List LeadRow) (log : List QualificationRow) (l : LeadRow)
    → any (λ m. m.id == l.id && not (not (p m))) ls ≡ false
    → RowSound log l
    → RowSound (keep (λ r. not (any (λ m. m.id == r.lead_id && p m) ls)) log) l
RowSound-entries p ls log l n s = (
  s.0,
  (λ h.
      any-entries (λ r. r.lead_id == l.id && r.to_status == trim_space l.qualification_status)
        doomed log (λ r g. free r (first _ _ g))
      ∙ s.1 (sym (any-entries (λ r. r.lead_id == l.id) doomed log free) ∙ h)),
  s.2,
)
  where
    doomed : QualificationRow → Bool
    doomed r = any (λ m. m.id == r.lead_id && p m) ls

    free : (r : QualificationRow) → (r.lead_id == l.id) ≡ true → doomed r ≡ false
    free r g =
        subst (λ i. any (λ m. m.id == i && p m) ls ≡ false) (sym ((eq_iff r.lead_id l.id).0 g))
          (sym (any-not-not p l.id ls) ∙ n)

    first : (a b : Bool) → (a && b) ≡ true → a ≡ true
    first a b g = ground arith

All-RowSound :
    (p : LeadRow → Bool) (ls ms : List LeadRow) (log : List QualificationRow)
    → All (λ l. any (λ m. m.id == l.id && not (not (p m))) ls ≡ false) ms
    → All (RowSound log) ms
    → All (RowSound (keep (λ r. not (any (λ m. m.id == r.lead_id && p m) ls)) log)) ms
All-RowSound p ls [] log a s = tt
All-RowSound p ls (l ∷ ms) log a s =
    (RowSound-entries p ls log l a.0 s.0, All-RowSound p ls ms log a.1 s.1)

-- The deletion of leads keeps the rows sound, whatever the server answers.
pub delete_leads-Leaves :
    (fold_key : String → String) (raw_ids : List String) (scope : LeadScope) (d : Db)
    → IsSound d
    → Leaves (delete_leads fold_key raw_ids scope) d IsSound
unfolding delete_leads exec ◌>>◌
delete_leads-Leaves fold_key raw_ids scope d s =
    let ids = nonblank_ids raw_ids in
    let removed = drop_handoffs fold_key scope ids d in
    Leaves-refuse IsSound _ _ _ d s λ _. Leaves-refuse IsSound _ _ _ d s λ _.
      Leaves-refuse IsSound _ _ _ d s λ _. Leaves-transact IsSound _ d s (
        Runs-exec database _ (drop_handoffs fold_key scope ids) _ d _ (
          Runs-weaken _ removed _ _
            (Runs-exec_last database _ (drop_leads fold_key scope ids) removed)
            λ _ d' q. subst IsSound (sym q.0) (
              IsSound-of (drop_leads fold_key scope ids removed)
                (IsKeyed-keep _ d.leads (IsSound-IsKeyed d s))
                (All-RowSound (is_doomed fold_key scope ids d) d.leads _ d.qualification_log
                  (keep-Stays (λ l. not (is_doomed fold_key scope ids d l)) d.leads
                    (IsSound-IsKeyed d s))
                  (All-keep _ (RowSound d.qualification_log) d.leads (IsSound-rows d s))))))

early_open :
    (s closed : String)
    → early_stage (some closed) ≡ false
    → early_stage (some s) ≡ true
    → (s == closed) ≡ false
early_open s closed n h = elim (text-cases s closed) [
  | inl e ↦ absurd (false≢true (sym n ∙ ap (λ x. early_stage (some x)) (sym e) ∙ h))
  | inr e ↦ e
]

-- The stage of a lead that a member is given: open where it was open, won where it was won.
late_closed :
    (stage : Option String)
    → (has_closed_stage stage
        ≡ has_closed_stage (if early_stage stage then some "WITH_EXECUTIVE" else stage))
      × (is_won (if early_stage stage then some "WITH_EXECUTIVE" else stage) ≡ is_won stage)
late_closed none = (refl, refl)
late_closed (some s) = elim (Bool-cases (early_stage (some s))) [
  | inl h ↦ rw (h, early_open s "CLOSED_WON" refl h, early_open s "CLOSED_LOST" refl h) (refl, refl)
  | inr h ↦ rw h (refl, refl)
]

module _ (fold_key upper_key : String → String) (uuid : String → String) (p : Plan)
    (member : p.to_lead ≡ false) where
  assigned_row-kept : (l : LeadRow) → assigned_row p l ≡ to_member p l
  assigned_row-kept l = rw member refl

  assigned_row-RowSound :
      (log : List QualificationRow) (l : LeadRow) → RowSound log l → RowSound log (assigned_row p l)
  assigned_row-RowSound log l s =
      let c = late_closed l.sales_stage in
      subst (RowSound log) (sym (assigned_row-kept l))
        (s.0, s.1, ((s.2.0 ∙ c.0), λ w. s.2.1 (sym c.1 ∙ w)))

  assign_each-Runs :
      (ids : List String) (d : Db)
      → IsSound d
      → Runs (assign_each fold_key upper_key uuid p ids) d (λ _. IsSound)
  unfolding assign_each exec ◌>>◌
  assign_each-Runs [] d s = Runs-pure [] d _ s
  assign_each-Runs (id ∷ ids) d s =
      let wrote = write_assignment fold_key upper_key uuid p id d in
      Runs-exec database _ (write_assignment fold_key upper_key uuid p id) _ d _ (
        Runs-refuse _ (only_qualified fold_key upper_key uuid) _ wrote _ λ _.
          Runs-exec database _ (log_handoff fold_key upper_key uuid p id) _ wrote _ (
            Runs-bind _ _ _ _ _
              (assign_each-Runs ids (log_handoff fold_key upper_key uuid p id wrote) (
                IsSound-of (log_handoff fold_key upper_key uuid p id wrote)
                  (IsKeyed-update (is_target fold_key upper_key uuid id) (assigned_row p) d.leads
                    (λ l. ap (λ (x : LeadRow). x.id) (assigned_row-kept l)) (IsSound-IsKeyed d s))
                  (All-update (is_target fold_key upper_key uuid id) (RowSound d.qualification_log)
                    (assigned_row p) d.leads (assigned_row-RowSound d.qualification_log)
                    (IsSound-rows d s))))
              λ out d' s'. Runs-pure (assignment p id ∷ out) d' _ s'))

  pub assign_body-Runs :
      (input : AssignLeadInput) (ids : List String) (d : Db)
      → IsSound d
      → Runs (assign_body fold_key upper_key uuid input ids p) d (λ _. IsSound)
  unfolding assign_body
  assign_body-Runs input ids d s = Runs-query _ _ d _ (
      Runs-refuse _ _ _ d _ λ _. Runs-refuse _ _ _ d _ λ _.
        Runs-bind _ _ d (λ _. IsSound) _ (assign_each-Runs ids d s)
          λ out d' s'. Runs-pure _ d' _ s')
