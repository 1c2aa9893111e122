-- ===== src/Leads/Pages/Tests.antt =====
-- leads.go, `List`: three leads in pages of two.
use leadflow_v3_server.Base.{
  true, false, List, [], ◌∷◌, ◌≡◌, ◌<◌, ◌≤◌, refl, All, lookup, trim_space, some, none, arith,
}
use leadflow_v3_server.Base.ℤ.{pos}
use leadflow_v3_server.Leads.Conditions.Filters.{normalize_lead_sort}
use leadflow_v3_server.Leads.Pages.{
  RawRow, is_before, next_cursor, cursor_condition, clamp_lead_limit,
}
use leadflow_v3_server.Leads.Pages.Order.{IsListed, cursor_condition-next_cursor}
use leadflow_v3_server.Leads.Pages.Cuts.{IsOrdered}
use leadflow_v3_server.Leads.Pages.Walk.{all_pages, all_pages-whole}
use leadflow_v3_server.Leads.Pages.Nameless.{nameless-skips}
use leadflow_v3_server.Leads.Pages.Samples.{plain_texts, plain_texts-TextLaws}

abbrev first : RawRow
first = record {
  id = "l1";
  lead_name = "ann";
  status = "QUALIFIED";
  stage = "PRE_SALES";
  deal = some (pos 500);
  created_at = 10;
  updated_at = 12;
  analyst = some "Bo";
}

abbrev second : RawRow
second = record first { id = "l2"; deal = some (pos 300) }

abbrev third : RawRow
third = record first { id = "l0"; deal = none }

abbrev orphan : RawRow
orphan = record first { id = "l9"; analyst = none }

abbrev rows : List RawRow
rows = first ∷ second ∷ third ∷ []

rows-IsListed : All (IsListed plain_texts (normalize_lead_sort plain_texts.lower "value")) rows
rows-IsListed = (
  record {
    has_id = refl;
    has_status = refl;
    has_stage = refl;
    same_lower = refl;
    has_analyst = λ e. ("Bo", refl);
  },
  (
    record {
      has_id = refl;
      has_status = refl;
      has_stage = refl;
      same_lower = refl;
      has_analyst = λ e. ("Bo", refl);
    },
    (
      record {
        has_id = refl;
        has_status = refl;
        has_stage = refl;
        same_lower = refl;
        has_analyst = λ e. ("Bo", refl);
      },
      tt,
    ),
  ),
)

rows-IsOrdered :
    IsOrdered (is_before plain_texts (normalize_lead_sort plain_texts.lower "value")) rows
unfolding is_before normalize_lead_sort lookup trim_space
rows-IsOrdered = ((refl, (refl, tt)), ((refl, tt), (tt, tt)))

cursor_condition-next_cursor_example :
    cursor_condition plain_texts
      (normalize_lead_sort plain_texts.lower "value")
      (next_cursor plain_texts (normalize_lead_sort plain_texts.lower "value") first)
      second
    ≡ is_before plain_texts (normalize_lead_sort plain_texts.lower "value") first second
cursor_condition-next_cursor_example =
    cursor_condition-next_cursor plain_texts plain_texts-TextLaws "value" first second
      rows-IsListed.0

nameless-skips_example :
    (is_before plain_texts "analyst" orphan first ≡ true)
    × (cursor_condition plain_texts "analyst" (next_cursor plain_texts "analyst" orphan) first
        ≡ false)
nameless-skips_example =
    nameless-skips plain_texts plain_texts-TextLaws orphan first "Bo" refl refl refl refl refl refl

all_pages-whole_example :
    (all_pages plain_texts plain_texts-TextLaws "value" (pos 2) rows 4 "" ≡ some rows)
    × ((0 < clamp_lead_limit (pos 2)) × (clamp_lead_limit (pos 2) ≤ 100))
all_pages-whole_example =
    all_pages-whole plain_texts plain_texts-TextLaws "value" (pos 2) rows rows-IsOrdered
      rows-IsListed 4 (omega arith)
