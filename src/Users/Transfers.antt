-- ===== src/Users/Transfers.antt =====
-- users.go, `TransferSalesExec`: a sales executive moves to another team, with the assigned leads.
use Prim.Native.Nat.{Ordering}
use Prim.Native.String
use leadflow_v3_server.Base.{
  ℕ, String, Bool, true, false, not, ◌&&◌, ◌||◌, Option, none, some, List, [], ◌∷◌, ◌==◌, eqb, find,
  count, update, trim_space, if◌then◌else◌,
}
use leadflow_v3_server.Roles.{
  role_superadmin, role_analyst_team_lead, role_sales_executive, is_main_team_lead,
  lead_team_scope_id, trimmed,
}
use leadflow_v3_server.Db.{Db, UserRow, LeadRow, TeamRow, TransferRow}
use leadflow_v3_server.Db.Statements.{
  M, pure, ◌>>=◌, ◌>>◌, refuse_if, query, exec, transact, message, user_not_found,
  not_sales_executive, same_team, team_not_found, team_conflict, transfer_forbidden,
}
use leadflow_v3_server.Users.{has_id, found_or, find_by_id}
use leadflow_v3_server.Users.Deletion.{is_some_id}

pub record TransferSalesExecInput : Type 0 where
  pub sales_exec_id : String
  pub to_team_id : String
  pub expected_team_id : String
  pub actor_id : String
  pub actor_role : String
  pub actor_team_id : Option String

pub record TransferSalesExecResult : Type 0 where
  pub user : UserRow
  pub leads_moved : ℕ
  pub transfer_id : String
  pub from_team_id : Option String
  pub to_team_id : String

abbrev pub has_team_id : String → TeamRow → Bool
has_team_id id t = t.id == id

-- `a > b` on texts
abbrev text_gt : String → String → Bool
text_gt a b = elim (String.compare a b) [ Ordering.gt ↦ true | _ ↦ false ]

-- Destination and source, in the order of their ids.
unfoldable pub lock_ids : String → String → List String
lock_ids to from =
    if from == "" then to ∷ [] else if text_gt to from then from ∷ to ∷ [] else to ∷ from ∷ []

-- `SELECT id FROM "Team" … FOR UPDATE` for each; a lock has no effect on a single run.
unfoldable pub lock_teams : List String → M (Unit {0})
lock_teams [] = pure tt
lock_teams (id ∷ ids) = query (λ d. find (has_team_id id) d.teams) >>= λ o.
    found_or team_not_found o >>= λ _. lock_teams ids

-- `fromTeamID == nil || strings.TrimSpace(*fromTeamID) != actorTeam`
abbrev pub off_team : String → Option String → Bool
off_team actor_team none = true
off_team actor_team (some t) = not (trim_space t == actor_team)

abbrev pub actor_team_of : TransferSalesExecInput → String
actor_team_of input = lead_team_scope_id input.actor_role input.actor_team_id

abbrev pub not_from_team : TransferSalesExecInput → Option String → Bool
not_from_team input from = actor_team_of input == "" || off_team (actor_team_of input) from

unfoldable pub authorize_transfer : TransferSalesExecInput → Option String → M (Unit {0})
authorize_transfer input from =
    if is_main_team_lead input.actor_role
    then refuse_if (not_from_team input from) transfer_forbidden
      >> refuse_if (trim_space input.to_team_id == actor_team_of input) same_team
    else refuse_if
        (not (input.actor_role == role_superadmin)
          && not (input.actor_role == role_analyst_team_lead))
        transfer_forbidden

abbrev pub is_sales_exec_row : String → UserRow → Bool
is_sales_exec_row id u = has_id id u && u.role == role_sales_executive

abbrev pub on_team : ℕ → String → UserRow → UserRow
on_team now team u = record u { team_id = some team; updated_at = now }

abbrev pub move_user : ℕ → String → String → Db → Db
move_user now id team d = record d {
  users = update (is_sales_exec_row id) (on_team now team) d.users;
}

abbrev pub moved_lead : ℕ → String → String → LeadRow → LeadRow
moved_lead now team lead l = record l {
  team_id = some team;
  assigned_main_team_lead_id = some lead;
  updated_at = now;
}

abbrev pub is_assigned_to : String → LeadRow → Bool
is_assigned_to id l = is_some_id id l.assigned_sales_exec_id

abbrev pub move_leads : ℕ → String → String → String → Db → Db
move_leads now id team lead d = record d {
  leads = update (is_assigned_to id) (moved_lead now team lead) d.leads;
}

abbrev pub log_transfer : TransferRow → Db → Db
log_transfer row d = record d { transfers = row ∷ d.transfers }

-- A text for a NULL column: empty is NULL.
abbrev pub non_empty : String → Option String
non_empty s = if s == "" then none else some s

abbrev pub transfer_row : ℕ → String → TransferSalesExecInput → String → TransferRow
transfer_row now uuid input from = record {
  id = uuid;
  sales_exec_id = trim_space input.sales_exec_id;
  from_team_id = non_empty from;
  to_team_id = trim_space input.to_team_id;
  transferred_by_id = trim_space input.actor_id;
  created_at = now;
}

-- The writes, once the new team's lead is known; the number of leads moved.
unfoldable pub write_transfer : ℕ → String → TransferSalesExecInput → String → String → M ℕ
write_transfer now uuid input from lead =
    let id = trim_space input.sales_exec_id in
    let to = trim_space input.to_team_id in
    exec (λ d. count (is_sales_exec_row id) d.users) (move_user now id to) >>= λ rows.
    refuse_if (not (eqb rows 1)) team_conflict
    >> exec (λ d. count (is_assigned_to id) d.leads) (move_leads now id to lead)
    >>= λ moved. exec (λ _. tt) (log_transfer (transfer_row now uuid input from)) >> pure moved

-- The checks on the sales executive's row, and the destination.
unfoldable pub transfer_checked : ℕ → String → TransferSalesExecInput → UserRow → M ℕ
unfolding lock_ids
transfer_checked now uuid input row =
    let to = trim_space input.to_team_id in
    let expected = trim_space input.expected_team_id in
    let from = trimmed row.team_id in
    refuse_if (not (row.role == role_sales_executive)) not_sales_executive
    >> refuse_if (not (expected == "") && not (from == expected)) team_conflict
    >> authorize_transfer input row.team_id
    >> refuse_if (from == to) same_team
    >> lock_teams (lock_ids to from)
    >> query (λ d. find (has_team_id to) d.teams)
    >>= λ o. found_or team_not_found o >>= λ team.
        let lead = trim_space team.main_team_lead_id in
        refuse_if (lead == "") (message "destination team has no main team lead")
        >> write_transfer now uuid input from lead

unfoldable pub transfer_body : ℕ → String → TransferSalesExecInput → M (ℕ × Option String)
unfolding transfer_checked find_by_id
transfer_body now uuid input = find_by_id (trim_space input.sales_exec_id) >>= λ row.
    transfer_checked now uuid input row >>= λ moved. pure (moved, row.team_id)

unfoldable pub transfer_sales_exec : ℕ → String → TransferSalesExecInput → M TransferSalesExecResult
unfolding transfer_body find_by_id
transfer_sales_exec now uuid input =
    refuse_if (trim_space input.sales_exec_id == "") user_not_found
    >> refuse_if (trim_space input.to_team_id == "") team_not_found
    >> refuse_if (trim_space input.actor_id == "") (message "actor is required")
    >> transact (transfer_body now uuid input)
    >>= λ out. find_by_id (trim_space input.sales_exec_id) >>= λ user. pure (record {
      user = user;
      leads_moved = out.0;
      transfer_id = uuid;
      from_team_id = non_empty (trimmed out.1);
      to_team_id = trim_space input.to_team_id;
    })
