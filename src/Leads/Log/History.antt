-- ===== src/Leads/Log/History.antt =====
-- qualification_log.go, `ListQualificationHistory`: the timeline of a lead's statuses. Times count
-- nanoseconds; `id_before` is the order of the database on ids, and the labels and names of the display
-- are left out.
use leadflow_v3_server.Base.{
  ℕ, ◌+◌, ◌-◌, ◌/◌, String, Option, none, some, Bool, ◌&&◌, ◌||◌, List, [], ◌∷◌, ◌==◌, eqb, ltb,
  keep, is_nil, trim_space, if◌then◌else◌,
}
use leadflow_v3_server.Db.{Db, QualificationRow}
use leadflow_v3_server.Leads.Log.{is_entry_of}

pub record QualificationStatusChange : Type 0 where
  pub from_status : Option String
  pub to_status : String
  pub changed_at : ℕ
  pub reason : Option String
  pub source : String
  pub minutes_in_previous : Option ℕ
  pub minutes_in_status : ℕ
  pub is_current : Bool

abbrev minute : ℕ
minute = 60_000_000_000

-- `math.Round(later.Sub(earlier).Minutes())`, and 0 where that is negative.
abbrev pub minutes_between : ℕ → ℕ → ℕ
minutes_between earlier later = (later - earlier + minute / 2) / minute

-- `ORDER BY "changedAt" ASC, id ASC`
abbrev pub is_before : (String → String → Bool) → QualificationRow → QualificationRow → Bool
is_before id_before a b =
    ltb a.changed_at b.changed_at || (eqb a.changed_at b.changed_at && id_before a.id b.id)

unfoldable pub place :
    (String → String → Bool) → QualificationRow → List QualificationRow → List QualificationRow
place id_before row [] = row ∷ []
place id_before row (r ∷ rs) =
    let later = r ∷ place id_before row rs in
    if is_before id_before row r then row ∷ r ∷ rs else later

unfoldable pub in_order : (String → String → Bool) → List QualificationRow → List QualificationRow
unfolding place
in_order id_before [] = []
in_order id_before (r ∷ rs) = place id_before r (in_order id_before rs)

-- When a status ended: at the next change, or not yet.
abbrev pub ended_at : ℕ → List QualificationRow → ℕ
ended_at now [] = now
ended_at now (next ∷ rest) = next.changed_at

abbrev pub since : Option ℕ → QualificationRow → Option ℕ
since none row = none
since (some earlier) row = some (minutes_between earlier row.changed_at)

-- The loop over the rows; `previous` is the time of the row before.
unfoldable pub items : ℕ → Option ℕ → List QualificationRow → List QualificationStatusChange
items now previous [] = []
items now previous (row ∷ rest) =
    record {
      from_status = row.from_status;
      to_status = row.to_status;
      changed_at = row.changed_at;
      reason = row.reason;
      source = row.source;
      minutes_in_previous = since previous row;
      minutes_in_status = minutes_between row.changed_at (ended_at now rest);
      is_current = is_nil rest;
    }
    ∷ items now (some row.changed_at) rest

unfoldable pub list_qualification_history :
    (String → String → Bool) → ℕ → String → Db → List QualificationStatusChange
unfolding in_order items
list_qualification_history id_before now lead_id d =
    let id = trim_space lead_id in
    if id == ""
    then []
    else items now none (in_order id_before (keep (is_entry_of id) d.qualification_log))
