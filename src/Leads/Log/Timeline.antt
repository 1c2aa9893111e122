-- ===== src/Leads/Log/Timeline.antt =====
-- qualification_log.go, `ListQualificationHistory`: the timeline tells the entries of the lead in order of
-- time, without gaps, and its last item alone is current.
use leadflow_v3_server.Base.{
  ℕ, ◌≤◌, ◌<◌, ◌+◌, ◌*◌, ◌-◌, ◌&&◌, String, Option, none, some, Bool, true, false, List, [], ◌∷◌,
  ◌==◌, ◌≡◌, refl, ◌∙◌, keep, count, arith, trim_space, inl, inr, Bool-cases,
}
use leadflow_v3_server.Db.{Db, QualificationRow}
use leadflow_v3_server.Leads.Log.{is_entry_of}
use leadflow_v3_server.Leads.Log.History.{
  QualificationStatusChange, is_before, place, in_order, items, minutes_between,
  list_qualification_history,
}

-- `m` is the number of minutes from `a` to `b`, in nanoseconds, rounded to the nearest, and a half up; it is
-- 0 when `b` is not after `a`.
abbrev pub IsMinutes : ℕ → ℕ → ℕ → Type 0
IsMinutes a b m =
    (60_000_000_000 * m ≤ (b - a) + 30_000_000_000)
    × ((b - a) + 30_000_000_000 < 60_000_000_000 * m + 60_000_000_000)

-- The time of the next row, or the present.
abbrev pub next_time : ℕ → List QualificationRow → ℕ
next_time now [] = now
next_time now (r ∷ rs) = r.changed_at

-- The item says what the row says, and how long its status lasted.
pub record IsItemOf (now : ℕ) (row : QualificationRow) (later : List QualificationRow)
    (item : QualificationStatusChange) : Type 0 where
  pub from_status : item.from_status ≡ row.from_status
  pub to_status : item.to_status ≡ row.to_status
  pub changed_at : item.changed_at ≡ row.changed_at
  pub reason : item.reason ≡ row.reason
  pub source : item.source ≡ row.source
  pub lasted : IsMinutes row.changed_at (next_time now later) item.minutes_in_status

abbrev pub IsTold : ℕ → List QualificationRow → List QualificationStatusChange → Type 0
IsTold now [] [] = Unit
IsTold now [] (item ∷ rest) = ⊥
IsTold now (row ∷ rows) [] = ⊥
IsTold now (row ∷ rows) (item ∷ rest) = IsItemOf now row rows item × IsTold now rows rest

-- What ties an item to the one that follows it.
abbrev pub Follows : QualificationStatusChange → List QualificationStatusChange → Type 0
Follows item [] = item.is_current ≡ true
Follows item (next ∷ rest) =
    (item.is_current ≡ false)
    × (item.changed_at ≤ next.changed_at)
    × (next.minutes_in_previous ≡ some item.minutes_in_status)

-- Each item begins when the one before ended, and the last one is the current.
abbrev pub IsLinked : List QualificationStatusChange → Type 0
IsLinked [] = Unit
IsLinked (item ∷ rest) = Follows item rest × IsLinked rest

abbrev pub IsFirst : List QualificationStatusChange → Type 0
IsFirst [] = Unit
IsFirst (item ∷ rest) = item.minutes_in_previous ≡ none

abbrev pub Below : ℕ → List QualificationRow → Type 0
Below at [] = Unit
Below at (r ∷ rs) = at ≤ r.changed_at

abbrev Ordered : List QualificationRow → Type 0
Ordered [] = Unit
Ordered (r ∷ rs) = Below r.changed_at rs × Ordered rs

module _ (id_before : String → String → Bool) where
  count-place :
      (p : QualificationRow → Bool) (r : QualificationRow) (rs : List QualificationRow)
      → count p (place id_before r rs) ≡ count p (r ∷ rs)
  unfolding place
  count-place p r [] = refl
  count-place p r (x ∷ xs) = ground (arith, count-place p r xs)

  count-in_order :
      (p : QualificationRow → Bool) (rs : List QualificationRow)
      → count p (in_order id_before rs) ≡ count p rs
  unfolding in_order
  count-in_order p [] = refl
  count-in_order p (r ∷ rs) =
      count-place p r (in_order id_before rs) ∙ ground (arith, count-in_order p rs)

  Below-place :
      (at : ℕ) (r : QualificationRow) (rs : List QualificationRow)
      → at ≤ r.changed_at
      → Below at rs
      → Below at (place id_before r rs)
  unfolding place
  Below-place at r [] h b = h
  Below-place at r (x ∷ xs) h b = elim (Bool-cases (is_before id_before r x)) [
    | inl e ↦ rw e h
    | inr e ↦ rw e b
  ]

  Ordered-place :
      (r : QualificationRow) (rs : List QualificationRow)
      → Ordered rs
      → Ordered (place id_before r rs)
  unfolding place
  Ordered-place r [] o = (tt, tt)
  Ordered-place r (x ∷ xs) o = elim (Bool-cases (is_before id_before r x)) [
    | inl e ↦ rw e ((ground arith), o)
    | inr e ↦ rw e (Below-place x.changed_at r xs (ground arith) o.0, Ordered-place r xs o.1)
  ]

  Ordered-in_order : (rs : List QualificationRow) → Ordered (in_order id_before rs)
  unfolding in_order
  Ordered-in_order [] = tt
  Ordered-in_order (r ∷ rs) = Ordered-place r (in_order id_before rs) (Ordered-in_order rs)

rounded : (a b : ℕ) → IsMinutes a b (minutes_between a b)
rounded a b = (omega arith, omega arith)

items-IsTold :
    (now : ℕ) (previous : Option ℕ) (rs : List QualificationRow)
    → IsTold now rs (items now previous rs)
unfolding items
items-IsTold now previous [] = tt
items-IsTold now previous (r ∷ []) = (
  record {
    from_status = refl;
    to_status = refl;
    changed_at = refl;
    reason = refl;
    source = refl;
    lasted = rounded r.changed_at now;
  },
  tt,
)
items-IsTold now previous (r ∷ x ∷ xs) = (
  record {
    from_status = refl;
    to_status = refl;
    changed_at = refl;
    reason = refl;
    source = refl;
    lasted = rounded r.changed_at x.changed_at;
  },
  items-IsTold now (some r.changed_at) (x ∷ xs),
)

items-IsLinked :
    (now : ℕ) (previous : Option ℕ) (rs : List QualificationRow)
    → Ordered rs
    → IsLinked (items now previous rs)
unfolding items
items-IsLinked now previous [] o = tt
items-IsLinked now previous (r ∷ []) o = (refl, tt)
items-IsLinked now previous (r ∷ x ∷ xs) o =
    ((refl, o.0, refl), items-IsLinked now (some r.changed_at) (x ∷ xs) o.1)

items-IsFirst : (now : ℕ) (rs : List QualificationRow) → IsFirst (items now none rs)
unfolding items
items-IsFirst now [] = tt
items-IsFirst now (r ∷ rs) = refl

count-keep :
    (q p : QualificationRow → Bool) (rs : List QualificationRow)
    → count p (keep q rs) ≡ count (λ r. q r && p r) rs
count-keep q p [] = refl
count-keep q p (r ∷ rs) = ground (arith, count-keep q p rs)

pub record IsTimeline (id : String) (log : List QualificationRow) (now : ℕ)
    (out : List QualificationStatusChange) : Type 0 where
  pub rows : List QualificationRow
  pub same :
      (p : QualificationRow → Bool) → count p rows ≡ count (λ r. (r.lead_id == id) && p r) log
  pub told : IsTold now rows out
  pub linked : IsLinked out
  pub begins : IsFirst out

-- The history of a lead that is named by a text that is not blank has one item for each entry of the lead in
-- the log, as often as it is there and no other, in the order of their times. An item has the statuses, the
-- time, the reason and the source of its entry; it says how many minutes, rounded, lie between it and the
-- next item, or the present for the last; each but the first says of the time before it what the item before
-- says, the first says nothing of it, and exactly the last one is marked as current.
pub list_qualification_history-IsTimeline :
    (id_before : String → String → Bool) (now : ℕ) (lead_id : String) (d : Db)
    → (trim_space lead_id == "") ≡ false
    → IsTimeline
        (trim_space lead_id)
        d.qualification_log
        now
        (list_qualification_history id_before now lead_id d)
unfolding list_qualification_history
list_qualification_history-IsTimeline id_before now lead_id d h =
    let mine = keep (is_entry_of (trim_space lead_id)) d.qualification_log in
    let rows = in_order id_before mine in
    rw h (record {
      rows = rows;
      same = λ p. count-in_order id_before p mine ∙ count-keep _ p d.qualification_log;
      told = items-IsTold now none rows;
      linked = items-IsLinked now none rows (Ordered-in_order id_before mine);
      begins = items-IsFirst now rows;
    })
