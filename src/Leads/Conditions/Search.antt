-- ===== src/Leads/Conditions/Search.antt =====
-- search.go, `appendLeadSearch` with its helpers: the clause of a search.
use leadflow_v3_server.Base.{
  ℕ, String, Bool, ◌||◌, List, [], ◌∷◌, ◌++◌, length, codes, leb, ltb, trim_space, lookup,
  if◌then◌else◌,
}
use leadflow_v3_server.Leads.Conditions.Parts.{str, Piece, text, arg, Condition, plain, with_arg}
use leadflow_v3_server.Leads.Conditions.Filters.{or_default}
use leadflow_v3_server.Leads.Conditions.Patterns.{
  escape_ilike, digits_only, anywhere, pattern_arg, contains,
}
use leadflow_v3_server.Leads.Conditions.Words.{canonical_search_field}

abbrev pub lead_is_unassigned_sql : String
lead_is_unassigned_sql =
    "(l.\"teamId\" IS NULL AND l.\"assignedMainTeamLeadId\" IS NULL AND l.\"assignedSalesExecId\" IS NULL)"

abbrev pub append_text_search : String → List ℕ → Condition
append_text_search expr q =
    with_arg (pattern_arg q)
      (text "(" ∷ text expr ∷ text ") ILIKE " ∷ arg 0 ∷ text " ESCAPE '\\'" ∷ [])

abbrev pub append_phone_search : List ℕ → Condition
append_phone_search q =
    if leb 2 (length (digits_only q))
    then record {
      args = pattern_arg q ∷ str (anywhere (digits_only q)) ∷ [];
      clause =
          text "( COALESCE(l.phone, '') ILIKE "
          ∷ arg 1
          ∷ text " ESCAPE '\\' OR translate(COALESCE(l.phone, ''), ' ()-+.', '') LIKE "
          ∷ arg 0
          ∷ text " )"
          ∷ [];
    }
    else with_arg (pattern_arg q)
        (text "COALESCE(l.phone, '') ILIKE " ∷ arg 0 ∷ text " ESCAPE '\\'" ∷ [])

abbrev pub contact_search : List ℕ → Condition
contact_search q =
    if leb 2 (length (digits_only q))
    then record {
      args = pattern_arg q ∷ str (anywhere (digits_only q)) ∷ [];
      clause =
          text "( COALESCE(l.phone, '') ILIKE "
          ∷ arg 1
          ∷ text " ESCAPE '\\' OR translate(COALESCE(l.phone, ''), ' ()-+.', '') LIKE "
          ∷ arg 0
          ∷ text " OR COALESCE(l.city, '') ILIKE "
          ∷ arg 1
          ∷ text " ESCAPE '\\' OR COALESCE(l.country, '') ILIKE "
          ∷ arg 1
          ∷ text " ESCAPE '\\' )"
          ∷ [];
    }
    else with_arg (pattern_arg q) (
        text "( COALESCE(l.phone, '') ILIKE "
        ∷ arg 0
        ∷ text " ESCAPE '\\' OR COALESCE(l.city, '') ILIKE "
        ∷ arg 0
        ∷ text " ESCAPE '\\' OR COALESCE(l.country, '') ILIKE "
        ∷ arg 0
        ∷ text " ESCAPE '\\' )"
        ∷ [])

-- The alternatives of a tag search, joined by OR.
abbrev pub joined_or : List Piece → List Piece
joined_or [] = []
joined_or (x ∷ []) = x ∷ []
joined_or (x ∷ y ∷ xs) = x ∷ text " OR " ∷ joined_or (y ∷ xs)

abbrev pub when : Bool → Piece → List Piece → List Piece
when b x xs = if b then x ∷ xs else xs

-- The three tests of a tag search, and its clause.
abbrev pub tag_clauses : Bool → Bool → Bool → List Piece
tag_clauses is_new is_marked is_irrelevant = when is_new (text lead_is_unassigned_sql) (
    when is_marked (text "l.\"notAppropriate\" = TRUE")
      (when is_irrelevant (text "l.\"qualificationStatus\" = 'IRRELEVANT'") []))

abbrev pub tag_condition : List Piece → Condition
tag_condition [] = plain "FALSE"
tag_condition (x ∷ xs) = record {
  args = [];
  clause = (text "(" ∷ []) ++ joined_or (x ∷ xs) ++ text ")" ∷ [];
}

unfoldable pub tag_search : List ℕ → Condition
tag_search low = tag_condition (
    tag_clauses (contains low (codes "new"))
      (contains low (codes "appropriate") || contains low (codes "approved"))
      (contains low (codes "irrelevant")))

abbrev pub closed_search : List ℕ → Condition
closed_search low =
    if contains low (codes "lost")
    then plain "l.\"salesStage\" = 'CLOSED_LOST'"
    else if contains low (codes "open")
    then plain
        "( l.\"closedAt\" IS NULL AND l.\"salesStage\" NOT IN ('CLOSED_WON', 'CLOSED_LOST') )"
    else if contains low (codes "clos")
    then plain "( l.\"closedAt\" IS NOT NULL OR l.\"salesStage\" IN ('CLOSED_WON', 'CLOSED_LOST') )"
    else plain "FALSE"

-- The default: the precomputed search document.
abbrev pub document_search : List ℕ → List ℕ → Condition
document_search low q =
    if leb 4 (length (digits_only q))
    then record {
      args = pattern_arg low ∷ str (anywhere (digits_only q)) ∷ [];
      clause =
          text "(l.\"searchDoc\" LIKE "
          ∷ arg 1
          ∷ text " ESCAPE '\\' OR l.\"searchDoc\" LIKE "
          ∷ arg 0
          ∷ text ")"
          ∷ [];
    }
    else with_arg (pattern_arg low)
        (text "l.\"searchDoc\" LIKE " ∷ arg 0 ∷ text " ESCAPE '\\'" ∷ [])

-- The cases of the switch on the field. `low` is the text in small letters.
unfoldable pub search_case : List ℕ → List ℕ → List (String × Condition)
unfolding escape_ilike tag_search digits_only
search_case low q =
    ("source", append_text_search "l.source" q)
    ∷ ("portal", append_text_search "COALESCE(l.\"portalWebsite\", '')" q)
    ∷ ("lead", append_text_search "l.\"leadName\"" q)
    ∷ (
      "analyst",
      with_arg (pattern_arg q) (
          text "EXISTS ( SELECT 1 FROM \"User\" a WHERE a.id = l.\"createdById\" AND (a.name ILIKE "
          ∷ arg 0
          ∷ text " ESCAPE '\\' OR COALESCE(a.email, '') ILIKE "
          ∷ arg 0
          ∷ text " ESCAPE '\\') )"
          ∷ []),
    )
    ∷ ("tag", tag_search low)
    ∷ ("phone", append_phone_search q)
    ∷ ("email", append_text_search "COALESCE(l.\"leadEmail\", '')" q)
    ∷ ("clientProfile", append_text_search "COALESCE(l.\"clientProfile\", '')" q)
    ∷ (
      "location",
      with_arg (pattern_arg q) (
          text "( COALESCE(l.city, '') ILIKE "
          ∷ arg 0
          ∷ text " ESCAPE '\\' OR COALESCE(l.country, '') ILIKE "
          ∷ arg 0
          ∷ text " ESCAPE '\\' OR (COALESCE(l.city, '') || ', ' || COALESCE(l.country, '')) ILIKE "
          ∷ arg 0
          ∷ text " ESCAPE '\\' )"
          ∷ []),
    )
    ∷ ("analystNotes", append_text_search "COALESCE(l.notes, '')" q)
    ∷ (
      "status",
      with_arg (pattern_arg q) (
          text "( l.\"qualificationStatus\" ILIKE "
          ∷ arg 0
          ∷ text " ESCAPE '\\' OR replace(lower(l.\"qualificationStatus\"), '_', ' ') ILIKE "
          ∷ arg 0
          ∷ text " ESCAPE '\\' )"
          ∷ []),
    )
    ∷ (
      "score",
      with_arg (pattern_arg q)
          (text "COALESCE(l.\"leadScore\"::text, '') ILIKE " ∷ arg 0 ∷ text " ESCAPE '\\'" ∷ []),
    )
    ∷ (
      "stage",
      with_arg (pattern_arg q) (
          text "( l.\"salesStage\" ILIKE "
          ∷ arg 0
          ∷ text " ESCAPE '\\' OR replace(lower(l.\"salesStage\"), '_', ' ') ILIKE "
          ∷ arg 0
          ∷ text " ESCAPE '\\' )"
          ∷ []),
    )
    ∷ ("closed", closed_search low)
    ∷ (
      "closedDate",
      with_arg (pattern_arg q) (
          text "( l.\"closedAt\" IS NOT NULL AND ( to_char(l.\"closedAt\", 'FMMM/FMDD/YYYY') ILIKE "
          ∷ arg 0
          ∷ text " ESCAPE '\\' OR to_char(l.\"closedAt\", 'YYYY-MM-DD') ILIKE "
          ∷ arg 0
          ∷ text " ESCAPE '\\' OR to_char(l.\"closedAt\", 'FMMonth FMDD, YYYY') ILIKE "
          ∷ arg 0
          ∷ text " ESCAPE '\\' ) )"
          ∷ []),
    )
    ∷ ("ip", plain "FALSE")
    ∷ ("duplicateCheck", plain "FALSE")
    ∷ ("executiveNotes", append_text_search "COALESCE(l.\"lostNotes\", '')" q)
    ∷ (
      "added",
      with_arg (pattern_arg q) (
          text "( to_char(l.\"createdAt\", 'FMMM/FMDD/YYYY') ILIKE "
          ∷ arg 0
          ∷ text " ESCAPE '\\' OR to_char(l.\"createdAt\", 'YYYY-MM-DD') ILIKE "
          ∷ arg 0
          ∷ text " ESCAPE '\\' OR to_char(l.\"createdAt\", 'FMMonth FMDD, YYYY') ILIKE "
          ∷ arg 0
          ∷ text " ESCAPE '\\' )"
          ∷ []),
    )
    ∷ (
      "team",
      with_arg (pattern_arg q) (
          text "( EXISTS ( SELECT 1 FROM \"Team\" t WHERE t.id = l.\"teamId\" AND t.name ILIKE "
          ∷ arg 0
          ∷ text
              " ESCAPE '\\' ) OR EXISTS ( SELECT 1 FROM \"User\" mtl WHERE mtl.id = l.\"assignedMainTeamLeadId\" AND mtl.name ILIKE "
          ∷ arg 0
          ∷ text " ESCAPE '\\' ) )"
          ∷ []),
    )
    ∷ (
      "handoff",
      with_arg (pattern_arg q) (
          text
            "EXISTS ( SELECT 1 FROM \"LeadHandoffLog\" h WHERE h.\"leadId\" = l.id AND h.action <> 'LEAD_CREATED' AND ( h.action ILIKE "
          ∷ arg 0
          ∷ text " ESCAPE '\\' OR replace(lower(h.action), '_', ' ') ILIKE "
          ∷ arg 0
          ∷ text " ESCAPE '\\' OR COALESCE(h.detail, '') ILIKE "
          ∷ arg 0
          ∷ text " ESCAPE '\\' ) )"
          ∷ []),
    )
    ∷ ("contact", contact_search q)
    ∷ (
      "dealValue",
      with_arg (pattern_arg q) (
          text "( COALESCE(l.\"estimatedDealValue\"::text, '') ILIKE "
          ∷ arg 0
          ∷ text " ESCAPE '\\' OR COALESCE(l.\"dealCurrency\", '') ILIKE "
          ∷ arg 0
          ∷ text " ESCAPE '\\' )"
          ∷ []),
    )
    ∷ (
      "salesExecutive",
      with_arg (pattern_arg q) (
          text
            "EXISTS ( SELECT 1 FROM \"User\" se WHERE se.id = l.\"assignedSalesExecId\" AND se.name ILIKE "
          ∷ arg 0
          ∷ text " ESCAPE '\\' )"
          ∷ []),
    )
    ∷ []

module _ (lower : String → String) where
  unfoldable pub lead_search : String → String → List Condition
  unfolding canonical_search_field search_case
  lead_search query_text field =
      let q = trim_space query_text in
      if ltb (length (codes q)) 2
      then []
      else or_default (document_search (codes (lower q)) (codes q))
          (lookup (canonical_search_field lower field) (search_case (codes (lower q)) (codes q)))
        ∷ []
