-- ===== src/Leads/Conditions/Numbered/Places.antt =====
-- leads.go, `appendLeadFacets`: each clause of a facet names exactly its own arguments.
use leadflow_v3_server.Base.{
  ℕ, String, ◌||◌, List, ◌==◌, refl, Option, none, some, trim_space, equal_fold,
}
use leadflow_v3_server.Access.{LeadListParams}
use leadflow_v3_server.Leads.Conditions.Facets.{
  facet_groups, lead_facets, geo_facet, append_nullable_id, analyst_team_lead_scope_sql,
  append_blank_or_equal, append_trim_equal, service_facet, append_service_line_facet,
  parse_lead_added_day, append_qualification_reason_facet, upper_equal, manager_facet, ordered_days,
  day_conditions, parse_geo_filter, is_blank_geo_label, is_unassigned_word,
}
use leadflow_v3_server.Leads.Conditions.Numbered.Closed.{AllClosed, if-AllClosed, joined-AllClosed}

trim_equal-AllClosed : (expr raw : String) → AllClosed (append_trim_equal expr raw)
unfolding append_trim_equal
trim_equal-AllClosed expr raw = if-AllClosed (trim_space raw == "") _ _ tt ((refl, refl), tt)

blank_or_equal-AllClosed : (expr raw : String) → AllClosed (append_blank_or_equal expr raw)
unfolding append_blank_or_equal
blank_or_equal-AllClosed expr raw = if-AllClosed (trim_space raw == "") _ _ tt (
    if-AllClosed (is_unassigned_word (trim_space raw)) _ _ ((refl, refl), tt)
      (trim_equal-AllClosed expr (trim_space raw)))

nullable_id-AllClosed : (column raw : String) → AllClosed (append_nullable_id column raw)
unfolding append_nullable_id
nullable_id-AllClosed column raw =
    if-AllClosed (trim_space raw == "") _ _ tt
      (if-AllClosed (is_unassigned_word (trim_space raw)) _ _ ((refl, refl), tt) ((refl, refl), tt))

scope-AllClosed :
    (prefix atl_id team_name : String)
    → AllClosed (analyst_team_lead_scope_sql prefix atl_id team_name)
unfolding analyst_team_lead_scope_sql
scope-AllClosed prefix atl_id team_name =
    if-AllClosed (trim_space atl_id == "") _ _ tt
      (if-AllClosed (trim_space team_name == "") _ _ ((refl, refl), tt) ((refl, refl), tt))

reason-AllClosed : (raw : String) → AllClosed (append_qualification_reason_facet raw)
unfolding append_qualification_reason_facet
reason-AllClosed raw = if-AllClosed (trim_space raw == "") _ _ tt (
    if-AllClosed
      (equal_fold (trim_space raw) "No reason recorded" || is_unassigned_word (trim_space raw)) _ _
      ((refl, refl), tt) ((refl, refl), tt))

module _ (lower upper : String → String) (parse_date : List ℕ → Option (ℕ × ℕ))
    (next_day : ℕ → ℕ) where
  geo_facet-AllClosed :
      (column expr label : String)
      → AllClosed (geo_facet lower upper parse_date next_day column expr label)
  unfolding geo_facet
  geo_facet-AllClosed column expr label = if-AllClosed (label == "") _ _ tt (
      if-AllClosed (is_blank_geo_label lower upper parse_date next_day label) _ _ ((refl, refl), tt)
        (trim_equal-AllClosed expr label))

  service_line-AllClosed :
      (line : String) → AllClosed (append_service_line_facet lower upper parse_date next_day line)
  unfolding append_service_line_facet
  service_line-AllClosed line =
      if-AllClosed (upper (trim_space line) == "CDR") _ _ ((refl, refl), tt)
        (if-AllClosed (upper (trim_space line) == "CCL") _ _ ((refl, refl), tt)
          (if-AllClosed (upper (trim_space line) == "PTE") _ _ ((refl, refl), tt)
            (if-AllClosed (upper (trim_space line) == "ACS") _ _ ((refl, refl), tt) tt)))

  days-AllClosed :
      (days : Option ℕ × Option ℕ) → AllClosed (day_conditions lower upper parse_date next_day days)
  days-AllClosed (none, none) = tt
  days-AllClosed (none, some b) = ((refl, refl), tt)
  days-AllClosed (some a, none) = ((refl, refl), tt)
  days-AllClosed (some a, some b) = ((refl, refl), ((refl, refl), tt))

  upper_equal-AllClosed :
      (column raw : String) → AllClosed (upper_equal lower upper parse_date next_day column raw)
  upper_equal-AllClosed column raw = if-AllClosed (trim_space raw == "") _ _ tt ((refl, refl), tt)

  manager-AllClosed : (raw : String) → AllClosed (manager_facet lower upper parse_date next_day raw)
  manager-AllClosed raw = if-AllClosed (trim_space raw == "") _ _ tt ((refl, refl), tt)

  service-AllClosed :
      (p : LeadListParams) → AllClosed (service_facet lower upper parse_date next_day p)
  service-AllClosed p =
      if-AllClosed (trim_space p.portal == "") _ _ (service_line-AllClosed p.service_line) tt

  pub lead_facets-AllClosed :
      (p : LeadListParams) → AllClosed (lead_facets lower upper parse_date next_day p)
  unfolding lead_facets facet_groups
  lead_facets-AllClosed p =
      let geo = parse_geo_filter p.country p.city in
      joined-AllClosed (facet_groups lower upper parse_date next_day p) (
        geo_facet-AllClosed "country" "l.country" geo.country,
        (
          geo_facet-AllClosed "city" "l.city" geo.city,
          (
            nullable_id-AllClosed "l.\"teamId\"" p.team_id,
            (
              nullable_id-AllClosed "l.\"createdById\"" p.analyst_id,
              (
                nullable_id-AllClosed "l.\"assignedSalesExecId\"" p.sales_exec_id,
                (
                  manager-AllClosed p.manager_id,
                  (
                    scope-AllClosed "l." p.analyst_team_lead_id p.analyst_team_name,
                    (
                      blank_or_equal-AllClosed "l.source" p.source,
                      (
                        blank_or_equal-AllClosed "l.\"portalWebsite\"" p.portal,
                        (
                          blank_or_equal-AllClosed "l.\"sourceMetaProfileName\"" p.meta_profile,
                          (
                            service-AllClosed p,
                            (
                              upper_equal-AllClosed "l.\"qualificationStatus\"" p.status,
                              (
                                upper_equal-AllClosed "l.\"salesStage\"" p.stage,
                                (
                                  days-AllClosed (
                                      ordered_days lower upper parse_date next_day
                                        (parse_lead_added_day lower upper parse_date next_day
                                          (trim_space p.added_from))
                                        (parse_lead_added_day lower upper parse_date next_day
                                          (trim_space p.added_to))),
                                  (reason-AllClosed p.qualification_reason, tt),
                                ),
                              ),
                            ),
                          ),
                        ),
                      ),
                    ),
                  ),
                ),
              ),
            ),
          ),
        ),
      )
