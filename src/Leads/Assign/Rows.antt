-- ===== src/Leads/Assign/Rows.antt =====
-- assign.go, `AssignLeads`: what the loop of UPDATEs does to the rows of "Lead".
use leadflow_v3_server.Base.{
  suc, String, none, some, Bool, true, false, false≢true, ◌||◌, List, [], ◌∷◌, ◌==◌, ◌≡◌, refl, sym,
  ap, ◌∙◌, subst, inl, inr, any, count, keep, update, eqb, length, All, arith, Bool-cases,
  text-cases, eq_iff, map,
}
use leadflow_v3_server.Db.{Db, LeadRow}
use leadflow_v3_server.Db.Statements.{◌>>◌, exec, database}
use leadflow_v3_server.Db.Triples.{Runs, Runs-pure, Runs-refuse, Runs-exec, Runs-bind}
use leadflow_v3_server.Users.Deletion.Forgotten.{lead_ids, ids-update}
use leadflow_v3_server.Leads.Assign.{
  Plan, LeadAssignmentResult, assigned_row, is_target, write_assignment, log_handoff,
  only_qualified, assign_each, plan_action,
}

abbrev pub Absent : String → List LeadRow → Type 0
Absent id ls = All (λ l. (l.id == id) ≡ false) ls

-- The primary key of "Lead".
abbrev pub IsKeyed : List LeadRow → Type 0
IsKeyed [] = Unit
IsKeyed (l ∷ ls) = Absent l.id ls × IsKeyed ls

-- A lead that stands where the plan puts it.
abbrev pub IsPlaced : Plan → LeadRow → Type 0
IsPlaced p l =
    (l.team_id ≡ p.assignee.team_id)
    × (p.to_lead ≡ true
        → (l.assigned_main_team_lead_id ≡ some p.assignee.id) × (l.assigned_sales_exec_id ≡ none))
    × (p.to_lead ≡ false → l.assigned_sales_exec_id ≡ some p.assignee.id)

abbrev pub AllPlaced : Plan → (String → Bool) → List LeadRow → Type 0
AllPlaced p s ls = All (λ l. s l.id ≡ true → IsPlaced p l) ls

abbrev pub chosen : List String → String → Bool
chosen ids x = any (λ y. y == x) ids

assigned_row-IsPlaced : (p : Plan) (l : LeadRow) → IsPlaced p (assigned_row p l)
assigned_row-IsPlaced p l = elim (Bool-cases p.to_lead) [
  | inl e ↦ rw e (refl, (λ _. (refl, refl)), λ h. cc)
  | inr e ↦ rw e (refl, (λ h. cc), λ _. refl)
]

assigned_row-id : (p : Plan) (l : LeadRow) → (assigned_row p l).id ≡ l.id
assigned_row-id p l = ground arith

Absent-update :
    (p : LeadRow → Bool) (f : LeadRow → LeadRow) (id : String) (ls : List LeadRow)
    → ((l : LeadRow) → (f l).id ≡ l.id)
    → Absent id ls
    → Absent id (update p f ls)
Absent-update p f id [] h a = tt
Absent-update p f id (l ∷ ls) h a = elim (Bool-cases (p l)) [
  | inl e ↦ rw (e, h l) (a.0, Absent-update p f id ls h a.1)
  | inr e ↦ rw e (a.0, Absent-update p f id ls h a.1)
]

pub IsKeyed-update :
    (p : LeadRow → Bool) (f : LeadRow → LeadRow) (ls : List LeadRow)
    → ((l : LeadRow) → (f l).id ≡ l.id)
    → IsKeyed ls
    → IsKeyed (update p f ls)
IsKeyed-update p f [] h k = tt
IsKeyed-update p f (l ∷ ls) h k = elim (Bool-cases (p l)) [
  | inl e ↦ rw (e, h l) (Absent-update p f l.id ls h k.0, IsKeyed-update p f ls h k.1)
  | inr e ↦ rw e (Absent-update p f l.id ls h k.0, IsKeyed-update p f ls h k.1)
]

-- What the log of hand-overs says: the lead, what was done and by whom, the newest first.
abbrev pub Mark : Type 0
Mark = String × String × String

abbrev pub marks : Db → List Mark
marks d = map (λ h. (h.lead_id, h.action, h.actor_id)) d.handoffs

-- One hand-over for each lead, in their order.
abbrev pub marked : String → String → List String → List Mark → List Mark
marked action actor [] old = old
marked action actor (id ∷ ids) old = marked action actor ids ((id, action, actor) ∷ old)

module _ (fold_key upper_key : String → String) (uuid : String → String) (p : Plan) where
  abbrev target : String → LeadRow → Bool
  target = is_target fold_key upper_key uuid

  abbrev placed : String → List LeadRow → List LeadRow
  placed id ls = update (target id) (assigned_row p) ls

  abbrev added : (String → Bool) → String → String → Bool
  added s id x = s x || id == x

  target-id : (id : String) (l : LeadRow) → target id l ≡ true → l.id ≡ id
  target-id id l g = ground (arith, eq_iff l.id id)

  placed-Absent :
      (s : String → Bool) (id : String) (ls : List LeadRow)
      → Absent id ls
      → AllPlaced p s ls
      → AllPlaced p (added s id) (placed id ls)
  placed-Absent s id [] a h = tt
  placed-Absent s id (l ∷ ls) a h =
      rw a.0
        ((λ q. h.0 (ground (arith, eq_iff l.id id, eq_iff id l.id))), placed-Absent s id ls a.1 h.1)

  target-Absent : (id : String) (ls : List LeadRow) → Absent id ls → count (target id) ls ≡ 0
  target-Absent id [] a = refl
  target-Absent id (l ∷ ls) a = rw a.0 (target-Absent id ls a.1)

  -- An UPDATE that reports a row puts the lead of that id in place.
  placed_update :
      (s : String → Bool) (id : String) (ls : List LeadRow)
      → IsKeyed ls
      → eqb (count (target id) ls) 0 ≡ false
      → AllPlaced p s ls
      → AllPlaced p (added s id) (placed id ls)
  placed_update s id [] k n h = absurd (false≢true (sym n))
  placed_update s id (l ∷ ls) k n h = elim (Bool-cases (target id l)) [
    | inl e ↦ rw e (
      (λ _. assigned_row-IsPlaced p l),
      placed-Absent s id ls (subst (λ x. Absent x ls) (target-id id l e) k.0) h.1,
    )
    | inr e ↦ elim (text-cases l.id id) [
      | inl q ↦ absurd (
          false≢true (
            sym (rw e at n)
            ∙ ap (λ c. eqb c 0) (target-Absent id ls (subst (λ x. Absent x ls) q k.0))))
      | inr q ↦ rw e (
        (λ g. h.0 (ground (arith, eq_iff l.id id, eq_iff id l.id))),
        placed_update s id ls k.1 (rw e at n) h.1,
      )
    ]
  ]

  keep_others :
      (t : String → Bool) (id : String) (ls : List LeadRow)
      → t id ≡ false
      → keep (λ l. t l.id) (placed id ls) ≡ keep (λ l. t l.id) ls
  keep_others t id [] h = refl
  keep_others t id (l ∷ ls) h = elim (Bool-cases (target id l)) [
    | inl e ↦ rw (e, assigned_row-id p l, off l e) (keep_others t id ls h)
    | inr e ↦ rw (e, keep_others t id ls h)
  ]
    where
      off : (l : LeadRow) → target id l ≡ true → t l.id ≡ false
      off r g = ap t (target-id id r g) ∙ h

  -- The leads after the loop over `ids`, where those that pass `s` were in place before.
  pub record Looped (s : String → Bool) (ids : List String) (d : Db)
      (out : List LeadAssignmentResult) (d' : Db) : Type 0 where
    pub each : AllPlaced p (λ x. s x || chosen ids x) d'.leads
    pub kept : lead_ids d' ≡ lead_ids d
    pub others :
        (t : String → Bool)
        → All (λ i. t i ≡ false) ids
        → keep (λ l. t l.id) d'.leads ≡ keep (λ l. t l.id) d.leads
    pub counted : length out ≡ length ids
    pub named : map (λ a. a.lead_id) out ≡ ids
    pub logged : marks d' ≡ marked (plan_action p) p.actor_id ids (marks d)

  AllPlaced-weaken :
      (s t : String → Bool) (ls : List LeadRow)
      → ((x : String) → t x ≡ true → s x ≡ true)
      → AllPlaced p s ls
      → AllPlaced p t ls
  AllPlaced-weaken s t [] h a = tt
  AllPlaced-weaken s t (l ∷ ls) h a = ((λ q. a.0 (h l.id q)), AllPlaced-weaken s t ls h a.1)

  none_more : (b : Bool) → (b || false) ≡ true → b ≡ true
  none_more b h = ground arith

  one_more : (a b c : Bool) → (a || (b || c)) ≡ true → ((a || b) || c) ≡ true
  one_more a b c h = ground arith

  pub assign_each_runs :
      (s : String → Bool) (ids : List String) (d : Db)
      → IsKeyed d.leads
      → AllPlaced p s d.leads
      → Runs (assign_each fold_key upper_key uuid p ids) d (λ out d'. Looped s ids d out d')
  unfolding assign_each exec ◌>>◌
  assign_each_runs s [] d k a = Runs-pure [] d _ (record {
    each = AllPlaced-weaken s _ d.leads (λ x. none_more (s x)) a;
    kept = refl;
    others = λ t h. refl;
    counted = refl;
    named = refl;
    logged = refl;
  })
  assign_each_runs s (id ∷ ids) d k a =
      Runs-exec database _ (write_assignment fold_key upper_key uuid p id) _ d _ (
        Runs-refuse _ (only_qualified fold_key upper_key uuid) _ _ _ λ n.
          Runs-exec database _ (log_handoff fold_key upper_key uuid p id) _ _ _ (
            Runs-bind _ _ _ _ _
              (assign_each_runs (added s id) ids
                (log_handoff fold_key upper_key uuid p id
                  (write_assignment fold_key upper_key uuid p id d))
                (IsKeyed-update (target id) (assigned_row p) d.leads (assigned_row-id p) k)
                (placed_update s id d.leads k n a))
              λ out d' r. Runs-pure _ d' _ (record {
                each =
                    AllPlaced-weaken _ _ d'.leads (λ x. one_more (s x) (id == x) (chosen ids x))
                      r.each;
                kept = r.kept ∙ ids-update _ _ d.leads (assigned_row-id p);
                others = λ t h. r.others t h.1 ∙ keep_others t id d.leads h.0;
                counted = ap suc r.counted;
                named = ap (λ xs. id ∷ xs) r.named;
                logged = r.logged;
              })))
