-- ===== src/Users/Tests.antt =====
-- users.go: the operations on a small workspace.
use leadflow_v3_server.Base.{String, equal_fold, ℕ, false, none, ◌≡◌, refl, arith, trim_space}
use leadflow_v3_server.Roles.{role_superadmin, is_main_team_lead}
use leadflow_v3_server.Db.Statements.{Result, ok, err, exec, query, transact, refuse_if, ◌>>◌}
use leadflow_v3_server.Db.Triples.{Runs}
use leadflow_v3_server.Base.{inl, Option, some, [], ◌∷◌}
use leadflow_v3_server.Db.{Db}
use leadflow_v3_server.Users.Analysts.{
  TransferLeadAnalystInput, TransferLeadAnalystResult, transfer_lead_analyst,
}
use leadflow_v3_server.Users.Regrouped.{Regrouped, transfer_lead_analyst-Regrouped}
use leadflow_v3_server.Db.Totals.{Works}
use leadflow_v3_server.Users.Transfers.{lock_ids}
use leadflow_v3_server.Users.Success.{CanMove, transfer_sales_exec-works}
use leadflow_v3_server.Users.Switching.{set_active-works}
use leadflow_v3_server.Db.Samples.{guide, finder, root, seller, red, blue, workspace, calm, deputy}
use leadflow_v3_server.Users.{set_active, deactivated}
use leadflow_v3_server.Users.Superadmins.{set_active-Switched, Switched, IsKeyed}
use leadflow_v3_server.Users.Deletion.Forgotten.{Forgotten}
use leadflow_v3_server.Users.Transfers.{
  TransferSalesExecInput, TransferSalesExecResult, transfer_sales_exec, authorize_transfer,
  lock_teams, write_transfer,
}
use leadflow_v3_server.Users.Moves.{transfer_sales_exec-Transferred, Transferred}

workspace-IsKeyed : IsKeyed workspace.users
workspace-IsKeyed = (
  (refl, (refl, (refl, (refl, tt)))),
  ((refl, (refl, (refl, tt))), ((refl, (refl, tt)), ((refl, tt), (tt, tt)))),
)

set_active-Switched_example :
    Runs (set_active 9 " deputy" "root" false) workspace (Switched "deputy" false)
unfolding trim_space
set_active-Switched_example =
    set_active-Switched 9 " deputy" "root" false workspace workspace-IsKeyed (omega arith)

-- The switch succeeds.
set_active_run : (set_active 9 " deputy" "root" false calm).0 ≡ ok (deactivated 9 deputy)
unfolding set_active ◌>>◌ refuse_if trim_space query exec
set_active_run = refl

abbrev move : TransferSalesExecInput
move = record {
  sales_exec_id = "seller";
  to_team_id = "blue";
  expected_team_id = "red";
  actor_id = "root";
  actor_role = role_superadmin;
  actor_team_id = none;
}

transfer_sales_exec-Transferred_example :
    Runs (transfer_sales_exec 9 "t" move) workspace (λ r d'. Transferred 9 "t" move workspace r d')
transfer_sales_exec-Transferred_example = transfer_sales_exec-Transferred 9 "t" move workspace

moved_of : Result TransferSalesExecResult → ℕ
moved_of (ok r) = r.leads_moved
moved_of (err e) = 0

-- The transfer succeeds and moves one lead.
transfer_run : moved_of (transfer_sales_exec 9 "t" move calm).0 ≡ 1
unfolding transfer_sales_exec moved_of ◌>>◌ refuse_if trim_space transact query authorize_transfer
    is_main_team_lead lock_teams write_transfer exec
transfer_run = refl

move-CanMove : CanMove move workspace
unfolding trim_space is_main_team_lead lock_ids
move-CanMove = record {
  row = seller;
  team = blue;
  exec_given = refl;
  team_given = refl;
  actor_given = refl;
  stored = refl;
  role = refl;
  unchanged = refl;
  allowed = inl (refl, refl);
  another = refl;
  locked = ((blue, refl), ((red, refl), tt));
  destination = refl;
  led = refl;
  once = refl;
}

transfer_sales_exec-works_example :
    Works (transfer_sales_exec 9 "t" move) workspace (λ r d'. Transferred 9 "t" move workspace r d')
transfer_sales_exec-works_example = transfer_sales_exec-works 9 "t" move workspace move-CanMove

set_active-works_example :
    Works (set_active 9 " deputy" "root" false) workspace (Switched "deputy" false)
unfolding trim_space
set_active-works_example =
    set_active-works 9 " deputy" "root" false workspace deputy workspace-IsKeyed (omega arith) refl
      refl refl refl

abbrev regroup : TransferLeadAnalystInput
regroup = record {
  lead_analyst_id = "finder";
  to_team_name = "";
  to_lead_id = "guide";
  expected_team_name = "";
  actor_id = "root";
  actor_role = role_superadmin;
}

abbrev with_analysts : Db
with_analysts = record workspace { users = guide ∷ finder ∷ root ∷ [] }

transfer_lead_analyst-Regrouped_example :
    Runs
      (transfer_lead_analyst (λ s. s) (λ s. s) equal_fold 9 regroup)
      with_analysts
      (Regrouped (λ s. s) (λ s. s) equal_fold regroup with_analysts)
transfer_lead_analyst-Regrouped_example =
    transfer_lead_analyst-Regrouped (λ s. s) (λ s. s) equal_fold 9 regroup with_analysts

manager_of : Result TransferLeadAnalystResult → Option String
manager_of (ok r) = r.user.manager_id
manager_of (err e) = none

-- The transfer of the analyst succeeds.
regroup_run :
    manager_of
      (transfer_lead_analyst
        (λ s. s)
        (λ s. s)
        equal_fold
        9
        regroup
        (record calm { db = with_analysts })).0
    ≡ some "guide"
unfolding transfer_lead_analyst manager_of ◌>>◌ refuse_if trim_space transact query exec equal_fold
regroup_run = refl
