-- ===== src/Leads/Detail.antt =====
-- leads.go, `GetByID`: a lead with what the drawer derives from it, and the history of its statuses.
-- `uuid` is the id of an entry that may be seeded, `id_before` the order of ids. Times stay numbers of
-- nanoseconds, amounts and paths are not formatted.
use leadflow_v3_server.Base.{
  ℕ, ℤ, ◌-◌, ◌/◌, String, Option, none, some, Bool, List, [], ◌∷◌, ◌==◌, find, trim_space,
  if◌then◌else◌,
}
use leadflow_v3_server.Db.{Db, LeadRow}
use leadflow_v3_server.Db.Statements.{M, pure, ◌>>=◌, ◌>>◌, query, message, ok}
use leadflow_v3_server.Users.{found_or}
use leadflow_v3_server.Leads.Assign.{attempt}
use leadflow_v3_server.Leads.Log.{is_lead, ensure_qualification_log_seeded}
use leadflow_v3_server.Leads.Log.History.{QualificationStatusChange, list_qualification_history}

pub record LeadDetail : Type 0 where
  pub lead : LeadRow
  pub sales_stage : String
  pub closed : String
  pub time_to_close_minutes : Option ℕ
  pub deal_currency : String
  pub deal_value : Option ℤ
  pub qualification_entered_at : Option ℕ
  pub qualification_history : List QualificationStatusChange

abbrev pub open_or_closed : Option ℕ → String
open_or_closed none = "Open"
open_or_closed (some at) = "Closed"

unfoldable pub closed_label : Option ℕ → String → String
closed_label closed_at stage =
    if trim_space stage == "CLOSED_LOST"
    then "Lost"
    else if trim_space stage == "CLOSED_WON"
    then "Closed"
    else open_or_closed closed_at

-- Whole minutes, and 0 where the lead closed before it was created.
unfoldable pub time_to_close : ℕ → Option ℕ → Option ℕ
time_to_close created_at none = none
time_to_close created_at (some at) = some ((at - created_at) / 60_000_000_000)

abbrev pub either : {A : Type 0} → Option A → Option A → Option A
either none o = o
either (some x) o = some x

-- The time of the last change.
abbrev pub last_change : List QualificationStatusChange → Option ℕ
last_change [] = none
last_change (item ∷ []) = some item.changed_at
last_change (item ∷ next ∷ rest) = last_change (next ∷ rest)

-- A step whose error is dropped.
unfoldable pub ignore : M (Unit {0}) → M (Unit {0})
ignore m c = (ok tt, (m c).1)

abbrev pub history_or_empty :
    Option (List QualificationStatusChange) → List QualificationStatusChange
history_or_empty none = []
history_or_empty (some history) = history

unfoldable pub detail_of : LeadRow → String → List QualificationStatusChange → LeadDetail
unfolding closed_label time_to_close
detail_of l stage history = record {
  lead = l;
  sales_stage = stage;
  closed = closed_label l.closed_at stage;
  time_to_close_minutes = time_to_close l.created_at l.closed_at;
  deal_currency = if trim_space l.deal_currency == "" then "AUD" else l.deal_currency;
  deal_value = either l.closed_revenue l.estimated_deal_value;
  qualification_entered_at = either l.qualification_entered_at (last_change history);
  qualification_history = history;
}

-- The scan of the row: a NULL in "salesStage" fails it.
abbrev pub scanned : LeadRow → Option (LeadRow × String)
scanned l = elim l.sales_stage [ none ↦ none | some stage ↦ some (l, stage) ]

abbrev pub read_lead : String → Db → Option (LeadRow × String)
read_lead id d = elim (find (is_lead id) d.leads) [ none ↦ none | some l ↦ scanned l ]

-- `ListQualificationHistory`, whose error leaves the empty history; a blank id asks nothing.
abbrev pub history_query :
    (String → String → Bool) → ℕ → String → M (Option (List QualificationStatusChange))
history_query id_before now id =
    if trim_space id == ""
    then pure (some [])
    else attempt (query (λ d. some (list_qualification_history id_before now id d)))

unfoldable pub with_history : (String → String → Bool) → ℕ → LeadRow × String → M LeadDetail
unfolding attempt list_qualification_history detail_of
with_history id_before now row = history_query id_before now row.0.id >>= λ history.
    pure (detail_of row.0 row.1 (history_or_empty history))

module _ (id_before : String → String → Bool) (uuid : String) where
  unfoldable pub get_by_id : ℕ → String → M LeadDetail
  unfolding ensure_qualification_log_seeded ignore with_history
  get_by_id now id = query (read_lead id) >>= λ o.
      found_or (message "no rows in result set") o >>= λ row.
      ignore (
        ensure_qualification_log_seeded uuid now row.0.id row.0.qualification_status
          row.0.created_at)
      >> with_history id_before now row
