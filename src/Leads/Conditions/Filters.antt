-- ===== src/Leads/Conditions/Filters.antt =====
-- leads.go, `normalizeLeadFilter`, `appendLeadFilter` and `appendQualifiedStatuses`: the presets of the lists.
use leadflow_v3_server.Base.{
  String, List, [], ◌∷◌, ◌++◌, ◌==◌, map, length, codes, All, Bool-cases, inl, inr, trim_space,
  lookup, Option, none, some,
}
use leadflow_v3_server.Qualification.{assignable_qualification_codes}
use leadflow_v3_server.Leads.Conditions.Parts.{str, Piece, text, arg, Condition, plain, with_arg}

-- The cases of the switch: the words, and the preset that they name.
abbrev pub filter_words : List (String × String)
filter_words =
    ("", "all")
    ∷ ("all", "all")
    ∷ ("new", "new")
    ∷ ("qualified", "qualified")
    ∷ ("irrelevant", "irrelevant")
    ∷ ("not_appropriate", "not_appropriate")
    ∷ ("not-appropriate", "not_appropriate")
    ∷ ("inappropriate", "not_appropriate")
    ∷ ("open", "open")
    ∷ ("contacted", "contacted")
    ∷ ("converted", "converted")
    ∷ ("lost", "lost")
    ∷ ("not_qualified", "not_qualified")
    ∷ ("not-qualified", "not_qualified")
    ∷ ("passed", "passed")
    ∷ ("total_pass", "passed")
    ∷ ("total-pass", "passed")
    ∷ ("handed_off", "passed")
    ∷ ("handed-off", "passed")
    ∷ ("passed_se_tl", "passed_se_tl")
    ∷ ("passed-se-tl", "passed_se_tl")
    ∷ ("passed_to_se_tl", "passed_se_tl")
    ∷ ("not_passed", "not_passed")
    ∷ ("not-passed", "not_passed")
    ∷ ("unpassed", "not_passed")
    ∷ ("not_passed_se_tl", "not_passed")
    ∷ ("with_team_lead", "with_team_lead")
    ∷ ("with-team-lead", "with_team_lead")
    ∷ ("with_tl", "with_team_lead")
    ∷ ("with_sales_exec", "with_sales_exec")
    ∷ ("with-sales-exec", "with_sales_exec")
    ∷ ("with_se", "with_sales_exec")
    ∷ ("assigned", "assigned")
    ∷ ("assigned_internal", "assigned")
    ∷ ("assigned-internal", "assigned")
    ∷ ("in_progress", "in_progress")
    ∷ ("in-progress", "in_progress")
    ∷ ("pipeline", "pipeline")
    ∷ ("pipeline_all", "pipeline")
    ∷ ("pipeline-all", "pipeline")
    ∷ ("pipeline_assigned", "pipeline_assigned")
    ∷ ("pipeline-assigned", "pipeline_assigned")
    ∷ ("pipeline_in_progress", "pipeline_in_progress")
    ∷ ("pipeline-in-progress", "pipeline_in_progress")
    ∷ ("pipeline_progress", "pipeline_in_progress")
    ∷ ("pipeline-progress", "pipeline_in_progress")
    ∷ ("pipeline_won", "pipeline_won")
    ∷ ("pipeline-won", "pipeline_won")
    ∷ ("pipeline_lost", "pipeline_lost")
    ∷ ("pipeline-lost", "pipeline_lost")
    ∷ []

abbrev pub or_default {ℓ} : {A : Type ℓ} → A → Option A → A
or_default a none = a
or_default a (some b) = b

-- What holds of every entry and of the default holds of what is found.
pub lookup-All {ℓ κ} :
    {A : Type ℓ} (P : A → Type κ) (key : String) (d : A) (table : List (String × A))
    → P d
    → All (λ e. P e.1) table
    → P (or_default d (lookup key table))
unfolding lookup
lookup-All P key d [] h a = h
lookup-All P key d ((at, x) ∷ rest) h a = elim (Bool-cases (at == key)) [
  | inl e ↦ rw e a.0
  | inr e ↦ rw e (lookup-All P key d rest h a.1)
]

-- `ORDER BY` modes
abbrev pub sort_words : List (String × String)
sort_words =
    ("", "name")
    ∷ ("name", "name")
    ∷ ("name-asc", "name")
    ∷ ("a-z", "name")
    ∷ ("az", "name")
    ∷ ("newest", "newest")
    ∷ ("oldest", "oldest")
    ∷ ("recent", "recent")
    ∷ ("recently-updated", "recent")
    ∷ ("activity", "recent")
    ∷ ("last-updated", "recent")
    ∷ ("status", "status")
    ∷ ("stage", "stage")
    ∷ ("value", "value")
    ∷ ("analyst", "analyst")
    ∷ []

module _ (lower : String → String) where
  unfoldable pub normalize_lead_filter : String → String
  unfolding lookup trim_space
  normalize_lead_filter filter = or_default "all" (lookup (lower (trim_space filter)) filter_words)

  unfoldable pub normalize_lead_sort : String → String
  unfolding lookup trim_space
  normalize_lead_sort sort = or_default "name" (lookup (lower (trim_space sort)) sort_words)

-- `$a, $b, …, $n` for the last arguments.
abbrev pub placeholders : List String → List Piece
placeholders [] = []
placeholders (x ∷ []) = arg 0 ∷ []
placeholders (x ∷ y ∷ xs) = arg (length (y ∷ xs)) ∷ text ", " ∷ placeholders (y ∷ xs)

abbrev pub one_of : String → String → List String → Condition
one_of before after xs = record {
  args = map (λ x. str (codes x)) xs;
  clause = (text before ∷ []) ++ placeholders xs ++ text after ∷ [];
}

abbrev pub qualified_statuses : Condition
qualified_statuses = one_of "l.\"qualificationStatus\" IN (" ")" assignable_qualification_codes

abbrev pub stage_is : String → Condition
stage_is s = with_arg (str (codes s)) (text "l.\"salesStage\" = " ∷ arg 0 ∷ [])

abbrev pub status_is : String → Condition
status_is s = with_arg (str (codes s)) (text "l.\"qualificationStatus\" = " ∷ arg 0 ∷ [])

abbrev pub stage_in : List String → Condition
stage_in xs = one_of "l.\"salesStage\" IN (" ")" xs

abbrev pub with_tl_or_se : Condition
with_tl_or_se = stage_in ("WITH_TEAM_LEAD" ∷ "WITH_EXECUTIVE" ∷ [])

abbrev pub in_progress_stages : Condition
in_progress_stages = stage_in ("NOT_CONNECTED" ∷ "IN_NEGOTIATION" ∷ "NO_RESPONSE_FROM_CLIENT" ∷ [])

-- The cases of the switch on the preset; the others append nothing.
abbrev pub lead_filters : List (String × List Condition)
lead_filters =
    ("new", status_is "NOT_QUALIFIED" ∷ [])
    ∷ ("not_qualified", status_is "NOT_QUALIFIED" ∷ [])
    ∷ ("qualified", qualified_statuses ∷ [])
    ∷ ("irrelevant", status_is "IRRELEVANT" ∷ [])
    ∷ ("not_appropriate", plain "l.\"notAppropriate\" = TRUE" ∷ [])
    ∷ (
      "open",
      one_of "l.\"closedAt\" IS NULL AND l.\"salesStage\" NOT IN (" ")"
            ("CLOSED_WON" ∷ "CLOSED_LOST" ∷ [])
          ∷ [],
    )
    ∷ (
      "contacted",
      stage_in ("WITH_EXECUTIVE" ∷ "WITH_TEAM_LEAD" ∷ "IN_NEGOTIATION" ∷ "NOT_CONNECTED" ∷ []) ∷ [],
    )
    ∷ ("converted", stage_is "CLOSED_WON" ∷ [])
    ∷ ("lost", stage_is "CLOSED_LOST" ∷ [])
    ∷ (
      "passed",
      one_of
            "EXISTS ( SELECT 1 FROM \"LeadHandoffLog\" h WHERE h.\"leadId\" = l.id AND h.action IN ("
            ") )" ("DIRECT_ASSIGNED_TO_EXECUTIVE_BY_ATL" ∷ "ASSIGNED_TO_EXECUTIVE" ∷ [])
          ∷ [],
    )
    ∷ ("passed_se_tl", qualified_statuses ∷ with_tl_or_se ∷ [])
    ∷ ("not_passed", stage_is "PRE_SALES" ∷ [])
    ∷ ("with_team_lead", stage_is "WITH_TEAM_LEAD" ∷ [])
    ∷ ("with_sales_exec", stage_is "WITH_EXECUTIVE" ∷ [])
    ∷ ("assigned", with_tl_or_se ∷ [])
    ∷ ("in_progress", in_progress_stages ∷ [])
    ∷ ("pipeline", qualified_statuses ∷ [])
    ∷ ("pipeline_assigned", qualified_statuses ∷ with_tl_or_se ∷ [])
    ∷ ("pipeline_in_progress", qualified_statuses ∷ in_progress_stages ∷ [])
    ∷ ("pipeline_won", qualified_statuses ∷ stage_is "CLOSED_WON" ∷ [])
    ∷ ("pipeline_lost", qualified_statuses ∷ stage_is "CLOSED_LOST" ∷ [])
    ∷ []

unfoldable pub lead_filter : String → List Condition
unfolding lookup
lead_filter filter = or_default [] (lookup filter lead_filters)
