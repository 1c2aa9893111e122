-- ===== src/Leads/Conditions.antt =====
-- leads.go, search.go, geo_filter.go: the WHERE clauses of the lead lists, with their arguments. A clause is
-- a list of pieces; `arg k` is the `$%d` that the code fills with the number of arguments so far, less `k`.
-- A text of SQL is kept up to its white space. `lower` and `upper` stand for strings.ToLower and
-- strings.ToUpper, a text argument is the list of its code points, a time counts nanoseconds.
pub mod Parts
pub mod Filters
pub mod Facets
pub mod Patterns
pub mod Words
pub mod Search
pub mod Literal
pub mod Numbered
pub mod Tests
use leadflow_v3_server.Base.{
  drop, ℕ, zero, suc, ◌+◌, ◌-◌, String, Bool, true, false, ◌&&◌, ◌||◌, List, [], ◌∷◌, ◌++◌, ◌==◌,
  any, length, codes, Option, trim_space, if◌then◌else◌,
}
use leadflow_v3_server.Access.{LeadListParams}
use leadflow_v3_server.Leads.Conditions.Parts.{
  Arg, Piece, Condition, Built, sql, nothing, append_conditions,
}
use leadflow_v3_server.Leads.Conditions.Filters.{normalize_lead_filter, lead_filter}
use leadflow_v3_server.Leads.Conditions.Facets.{lead_facets}
use leadflow_v3_server.Leads.Conditions.Search.{lead_search}

abbrev pub no_args : ℕ → List Arg
no_args zero = []
no_args (suc n) = nothing ∷ no_args n

abbrev pub without_reserved : ℕ → Built → Built
without_reserved reserved b = record b { args = drop reserved b.args }

module _ (lower upper : String → String) (parse_date : List ℕ → Option (ℕ × ℕ))
    (next_day : ℕ → ℕ) where
  -- Exact status supersedes the presets.
  unfoldable pub preset_conditions : LeadListParams → List Condition
  unfolding normalize_lead_filter lead_filter
  preset_conditions p =
      if trim_space p.status == "" then lead_filter (normalize_lead_filter lower p.filter) else []

  unfoldable pub build_lead_list_where : LeadListParams → ℕ → Built
  unfolding preset_conditions lead_facets lead_search append_conditions
  build_lead_list_where p reserved = without_reserved reserved (
      append_conditions
        (append_conditions
          (append_conditions (record { conditions = []; args = no_args reserved })
            (preset_conditions p))
          (lead_facets lower upper parse_date next_day p))
        (lead_search lower p.query_text p.field))

  unfoldable pub lead_scope_where : LeadListParams → Bool → Built
  unfolding preset_conditions lead_facets append_conditions
  lead_scope_where p apply_preset =
      append_conditions
        (append_conditions (record { conditions = []; args = [] })
          (if apply_preset then preset_conditions p else []))
        (lead_facets lower upper parse_date next_day p)

  abbrev pub with_clause : Built → String → Built
  with_clause b clause = record b { conditions = b.conditions ++ (sql clause ∷ []) ∷ [] }

  unfoldable pub lead_scope_where_assigned_to_sales_exec : LeadListParams → Built
  unfolding lead_scope_where
  lead_scope_where_assigned_to_sales_exec p =
      with_clause (lead_scope_where p true) "l.\"assignedSalesExecId\" IS NOT NULL"

  unfoldable pub lead_scope_where_assigned_to_team : LeadListParams → Built
  unfolding lead_scope_where
  lead_scope_where_assigned_to_team p =
      with_clause (lead_scope_where p true) "l.\"teamId\" IS NOT NULL"
