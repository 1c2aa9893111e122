-- ===== src/Leads/Conditions/Words.antt =====
-- search.go, `normalizeSearchField` and `canonicalSearchField`.
use leadflow_v3_server.Base.{String, List, [], ◌∷◌, ◌==◌, any, trim_space, lookup, if◌then◌else◌}
use leadflow_v3_server.Leads.Conditions.Filters.{or_default}

-- The words of `normalizeSearchField`: those without a dash.
abbrev pub search_words : List String
search_words =
    "source" ∷ "portal" ∷ "lead" ∷ "analyst" ∷ "tag" ∷ "phone" ∷ "email" ∷ "clientprofile"
    ∷ "client_profile" ∷ "location" ∷ "analystnotes" ∷ "analyst_notes" ∷ "status" ∷ "score"
    ∷ "stage" ∷ "closed" ∷ "closeddate" ∷ "closed_date" ∷ "ip" ∷ "executivenotes"
    ∷ "executive_notes" ∷ "added" ∷ "team" ∷ "handoff" ∷ "contact" ∷ "duplicatecheck"
    ∷ "duplicate_check" ∷ "dealvalue" ∷ "deal_value" ∷ "salesexecutive" ∷ "sales_executive" ∷ []

abbrev pub canonical_words : List (String × String)
canonical_words =
    ("client_profile", "clientProfile")
    ∷ ("clientprofile", "clientProfile")
    ∷ ("analyst_notes", "analystNotes")
    ∷ ("analystnotes", "analystNotes")
    ∷ ("executive_notes", "executiveNotes")
    ∷ ("executivenotes", "executiveNotes")
    ∷ ("deal_value", "dealValue")
    ∷ ("dealvalue", "dealValue")
    ∷ ("sales_executive", "salesExecutive")
    ∷ ("salesexecutive", "salesExecutive")
    ∷ ("duplicate_check", "duplicateCheck")
    ∷ ("duplicatecheck", "duplicateCheck")
    ∷ ("closed_date", "closedDate")
    ∷ ("closeddate", "closedDate")
    ∷ ("source", "source")
    ∷ ("portal", "portal")
    ∷ ("lead", "lead")
    ∷ ("analyst", "analyst")
    ∷ ("tag", "tag")
    ∷ ("phone", "phone")
    ∷ ("email", "email")
    ∷ ("location", "location")
    ∷ ("status", "status")
    ∷ ("score", "score")
    ∷ ("stage", "stage")
    ∷ ("closed", "closed")
    ∷ ("ip", "ip")
    ∷ ("added", "added")
    ∷ ("team", "team")
    ∷ ("handoff", "handoff")
    ∷ ("contact", "contact")
    ∷ []

-- `strings.ReplaceAll(…, "-", "")` has no effect on the words of the list, which hold no dash.
module _ (lower : String → String) where
  unfoldable pub normalize_search_field : String → String
  unfolding trim_space
  normalize_search_field field =
      if any (λ w. w == lower (trim_space field)) search_words then lower (trim_space field) else ""

  unfoldable pub canonical_search_field : String → String
  unfolding normalize_search_field lookup
  canonical_search_field field =
      or_default "" (lookup (normalize_search_field field) canonical_words)
