-- ===== src/Leads/Conditions/Facets.antt =====
-- leads.go, `appendLeadFacets` with its helpers, `analystTeamLeadScopeSQL` and `parseLeadAddedDay`;
-- geo_filter.go, `parseGeoFilter`, `isBlankGeoLabel`, `blankGeoSQL` and `leadClause`.
use Prim.Native.String.{◌++◌ as text_append}
use leadflow_v3_server.Base.{
  joined, ℕ, String, Bool, ◌||◌, List, [], ◌∷◌, ◌++◌, ◌==◌, any, length, codes, take, ltb,
  trim_space, equal_fold, Option, none, some, if◌then◌else◌,
}
use leadflow_v3_server.Roles.{role_lead_analyst}
use leadflow_v3_server.Access.{LeadListParams}
use leadflow_v3_server.Leads.Conditions.Parts.{
  str, moment, Piece, text, arg, Condition, plain, with_arg,
}

pub record GeoFilter : Type 0 where
  pub country : String
  pub city : String
  pub created_by_id : String
  pub team_id : String
  pub sales_exec_id : String
  pub analyst_team_lead_id : String
  pub analyst_team_name : String

unfoldable pub parse_geo_filter : String → String → GeoFilter
unfolding trim_space
parse_geo_filter country city = record {
  country = trim_space country;
  city = trim_space city;
  created_by_id = "";
  team_id = "";
  sales_exec_id = "";
  analyst_team_lead_id = "";
  analyst_team_name = "";
}

infixr 65 ◌+++◌
abbrev pub ◌+++◌ : String → String → String
s +++ t = text_append s t

abbrev pub blank_geo_sql : String → String → String
blank_geo_sql alias column =
    "(" +++ alias +++ "\"" +++ column +++ "\" IS NULL OR BTRIM(" +++ alias +++ "\"" +++ column
    +++ "\") = '' OR LOWER(BTRIM(" +++ alias +++ "\"" +++ column
    +++ "\")) IN ('unknown', 'none', 'unassigned', 'blank'))"

unfoldable pub append_trim_equal : String → String → List Condition
unfolding trim_space
append_trim_equal expr raw =
    if trim_space raw == ""
    then []
    else with_arg (str (codes (trim_space raw)))
        (text ("LOWER(BTRIM(" +++ expr +++ ")) = LOWER(BTRIM(") ∷ arg 0 ∷ text "::text))" ∷ [])
      ∷ []

abbrev pub is_unassigned_word : String → Bool
is_unassigned_word s = equal_fold s "none" || equal_fold s "unassigned"

unfoldable pub append_blank_or_equal : String → String → List Condition
unfolding append_trim_equal equal_fold
append_blank_or_equal expr raw =
    if trim_space raw == ""
    then []
    else if is_unassigned_word (trim_space raw)
    then plain ("(" +++ expr +++ " IS NULL OR BTRIM(" +++ expr +++ ") = '')") ∷ []
    else append_trim_equal expr (trim_space raw)

unfoldable pub append_nullable_id : String → String → List Condition
unfolding trim_space equal_fold
append_nullable_id column raw =
    if trim_space raw == ""
    then []
    else if is_unassigned_word (trim_space raw)
    then plain (column +++ " IS NULL") ∷ []
    else with_arg (str (codes (trim_space raw))) (text (column +++ " = ") ∷ arg 0 ∷ []) ∷ []

abbrev pub creator_clause : String → List Piece → List Piece
creator_clause prefix tail =
    text (
      "EXISTS ( SELECT 1 FROM \"User\" creator WHERE creator.id = " +++ prefix
      +++ "\"createdById\" AND ( creator.id = ")
    ∷ tail

unfoldable pub analyst_team_lead_scope_sql : String → String → String → List Condition
unfolding trim_space
analyst_team_lead_scope_sql prefix atl_id team_name =
    if trim_space atl_id == ""
    then []
    else if trim_space team_name == ""
    then record {
      args = str (codes (trim_space atl_id)) ∷ str (codes role_lead_analyst) ∷ [];
      clause = creator_clause prefix (
          arg 1
          ∷ text " OR (creator.role = "
          ∷ arg 0
          ∷ text " AND creator.\"managerId\" = "
          ∷ arg 1
          ∷ text ") ) )"
          ∷ []);
    }
      ∷ []
    else record {
      args =
          str (codes (trim_space atl_id))
          ∷ str (codes role_lead_analyst)
          ∷ str (codes (trim_space team_name))
          ∷ [];
      clause = creator_clause prefix (
          arg 2
          ∷ text " OR ( creator.role = "
          ∷ arg 1
          ∷ text " AND ( creator.\"managerId\" = "
          ∷ arg 2
          ∷ text " OR LOWER(BTRIM(COALESCE(creator.\"analystTeamName\", ''))) = LOWER(BTRIM("
          ∷ arg 0
          ∷ text "::text)) ) ) ) )"
          ∷ []);
    }
      ∷ []

abbrev pub raw_qualification_reason_sql : String
raw_qualification_reason_sql =
    "CASE WHEN l.notes IS NULL OR BTRIM(l.notes) = '' THEN 'No reason recorded' WHEN l.notes ~* 'qualification\\s+reason\\s*:' THEN NULLIF( LEFT(BTRIM(SUBSTRING(l.notes FROM '(?i)qualification\\s+reason\\s*:\\s*([^\\n]+)')), 200), '' ) ELSE NULLIF(LEFT(BTRIM(SPLIT_PART(l.notes, E'\\n', 1)), 200), '') END"

abbrev pub extracted : String
extracted = "COALESCE(" +++ raw_qualification_reason_sql +++ ", 'No reason recorded')"

unfoldable pub append_qualification_reason_facet : String → List Condition
unfolding trim_space equal_fold
append_qualification_reason_facet raw =
    if trim_space raw == ""
    then []
    else if equal_fold (trim_space raw) "No reason recorded" || is_unassigned_word (trim_space raw)
    then plain (extracted +++ " = 'No reason recorded'") ∷ []
    else with_arg (str (codes (trim_space raw))) (text (extracted +++ " = ") ∷ arg 0 ∷ []) ∷ []

-- `parse_date` stands for time.ParseInLocation of a day in the business time zone: its year, and the
-- instant of its midnight, and no day for a text with a character outside ASCII; `next_day` for
-- AddDate(0, 0, 1).
module _ (lower upper : String → String) (parse_date : List ℕ → Option (ℕ × ℕ))
    (next_day : ℕ → ℕ) where
  unfoldable pub is_blank_geo_label : String → Bool
  unfolding trim_space
  is_blank_geo_label label =
      any (λ s. s == lower (trim_space label)) ("unknown" ∷ "none" ∷ "unassigned" ∷ "blank" ∷ [])

  unfoldable pub geo_facet : String → String → String → List Condition
  unfolding is_blank_geo_label append_trim_equal
  geo_facet column expr label =
      if label == ""
      then []
      else if is_blank_geo_label label
      then plain (blank_geo_sql "l." column) ∷ []
      else append_trim_equal expr label

  unfoldable pub append_service_line_facet : String → List Condition
  unfolding trim_space
  append_service_line_facet line =
      let key = upper (trim_space line) in
      if key == "CDR"
      then plain "l.\"portalWebsite\" ILIKE '%CDR%'" ∷ []
      else if key == "CCL"
      then plain "(l.\"portalWebsite\" ILIKE '%CCL%' OR l.\"portalWebsite\" ILIKE '%NAATI%')" ∷ []
      else if key == "PTE"
      then plain "l.\"portalWebsite\" ILIKE '%PTE%'" ∷ []
      else if key == "ACS"
      then plain "l.\"portalWebsite\" ILIKE '%ACS%'" ∷ []
      else []

  abbrev pub day_in_range : Option (ℕ × ℕ) → Option ℕ
  day_in_range none = none
  day_in_range (some (year, day)) = if ltb year 1990 || ltb 2100 year then none else some day

  unfoldable pub parse_lead_added_day : String → Option ℕ
  unfolding trim_space
  parse_lead_added_day raw =
      let cs = codes (trim_space raw) in
      if ltb (length cs) 10 then none else day_in_range (parse_date (take 10 cs))

  -- The days of the range, in order.
  abbrev pub ordered_days : Option ℕ → Option ℕ → Option ℕ × Option ℕ
  ordered_days none to_day = (none, to_day)
  ordered_days (some a) none = (some a, none)
  ordered_days (some a) (some b) = if ltb b a then (some b, some a) else (some a, some b)

  abbrev pub from_condition : Option ℕ → List Condition
  from_condition none = []
  from_condition (some day) = with_arg (moment day) (text "l.\"createdAt\" >= " ∷ arg 0 ∷ []) ∷ []

  abbrev pub to_condition : Option ℕ → List Condition
  to_condition none = []
  to_condition (some day) =
      with_arg (moment (next_day day)) (text "l.\"createdAt\" < " ∷ arg 0 ∷ []) ∷ []

  abbrev pub day_conditions : Option ℕ × Option ℕ → List Condition
  day_conditions (from_day, to_day) = from_condition from_day ++ to_condition to_day

  abbrev pub upper_equal : String → String → List Condition
  upper_equal column raw =
      if trim_space raw == ""
      then []
      else with_arg (str (codes (upper (trim_space raw)))) (text (column +++ " = ") ∷ arg 0 ∷ [])
        ∷ []

  abbrev pub manager_facet : String → List Condition
  manager_facet raw =
      if trim_space raw == ""
      then []
      else with_arg (str (codes (trim_space raw))) (
          text
            "EXISTS ( SELECT 1 FROM \"User\" creator WHERE creator.id = l.\"createdById\" AND creator.\"managerId\" = "
          ∷ arg 0
          ∷ text " )"
          ∷ [])
        ∷ []

  abbrev pub service_facet : LeadListParams → List Condition
  service_facet p =
      if trim_space p.portal == "" then append_service_line_facet p.service_line else []

  unfoldable pub facet_groups : LeadListParams → List (List Condition)
  unfolding parse_geo_filter geo_facet append_nullable_id analyst_team_lead_scope_sql
      append_blank_or_equal append_service_line_facet parse_lead_added_day
      append_qualification_reason_facet
  facet_groups p =
      let geo = parse_geo_filter p.country p.city in
      geo_facet "country" "l.country" geo.country
      ∷ geo_facet "city" "l.city" geo.city
      ∷ append_nullable_id "l.\"teamId\"" p.team_id
      ∷ append_nullable_id "l.\"createdById\"" p.analyst_id
      ∷ append_nullable_id "l.\"assignedSalesExecId\"" p.sales_exec_id
      ∷ manager_facet p.manager_id
      ∷ analyst_team_lead_scope_sql "l." p.analyst_team_lead_id p.analyst_team_name
      ∷ append_blank_or_equal "l.source" p.source
      ∷ append_blank_or_equal "l.\"portalWebsite\"" p.portal
      ∷ append_blank_or_equal "l.\"sourceMetaProfileName\"" p.meta_profile
      ∷ service_facet p
      ∷ upper_equal "l.\"qualificationStatus\"" p.status
      ∷ upper_equal "l.\"salesStage\"" p.stage
      ∷ day_conditions (
          ordered_days (parse_lead_added_day (trim_space p.added_from))
            (parse_lead_added_day (trim_space p.added_to)))
      ∷ append_qualification_reason_facet p.qualification_reason
      ∷ []

  unfoldable pub lead_facets : LeadListParams → List Condition
  unfolding facet_groups
  lead_facets p = joined (facet_groups p)
