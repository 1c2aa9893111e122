-- ===== src/Leads/Assign/Tests.antt =====
-- assign.go: an assignment on a small workspace. Lower and upper case need no folding there.
use leadflow_v3_server.Base.{ℕ, String, ◌≡◌, refl, [], ◌∷◌, trim_space}
use leadflow_v3_server.Db.Statements.{Result, ok, err, ◌>>◌, refuse_if, query, transact, exec}
use leadflow_v3_server.Db.Samples.{calm}
use leadflow_v3_server.Leads.Visibility.{LeadScope, in_scope}
use leadflow_v3_server.Qualification.{is_assignable_qualification}
use leadflow_v3_server.Leads.Assign.{
  AssignLeadInput, AssignLeadsResult, assign_leads, retell, attempt,
}

abbrev anywhere : LeadScope
anywhere = record {
  created_by_id = "";
  team_id = "";
  sales_exec_id = "";
  analyst_team_lead_id = "";
  analyst_team_name = "";
}

abbrev both : AssignLeadInput
both = record {
  lead_ids = "one" ∷ " two" ∷ "one" ∷ [];
  assignee_id = "seller";
  kind = "member";
  actor_id = "root";
  scope = anywhere;
}

abbrev same : String → String
same s = s

updated_of : Result AssignLeadsResult → ℕ
updated_of (ok r) = r.updated
updated_of (err e) = 0

-- The assignment succeeds; the repeated id counts once.
assign_run : updated_of (assign_leads same same same 9 both calm).0 ≡ 2
unfolding assign_leads updated_of ◌>>◌ refuse_if trim_space retell query attempt transact in_scope
    is_assignable_qualification exec
assign_run = refl
