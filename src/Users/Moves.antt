-- ===== src/Users/Moves.antt =====
-- users.go, `TransferSalesExec`: who may move whom, and where the executive and the leads end.
use leadflow_v3_server.Base.{
  ℕ, String, Bool, true, false, not, ◌&&◌, ◌||◌, Option, none, some, List, [], ◌∷◌, ◌==◌, ◌≡◌, refl,
  sym, inl, inr, find, count, update, All, trim_space, arith, Bool-cases, text-cases, eq_iff,
  eq_refl,
}
use leadflow_v3_server.Roles.{
  role_superadmin, role_analyst_team_lead, role_sales_executive, is_main_team_lead, trimmed,
}
use leadflow_v3_server.Db.{Db, UserRow, LeadRow, TeamRow}
use leadflow_v3_server.Db.Statements.{
  ◌>>◌, exec, user_not_found, database, message, team_not_found, transfer_forbidden, team_conflict,
  same_team, not_sales_executive,
}
use leadflow_v3_server.Db.Triples.{
  Runs, Runs-pure, Runs-refuse, Runs-query, Runs-exec, Runs-bind, Runs-read, Runs-refuse_if,
  Runs-weaken, Runs-if, Runs-transact,
}
use leadflow_v3_server.Users.{has_id}
use leadflow_v3_server.Users.Superadmins.{found_or_runs, find_by_id_runs}
use leadflow_v3_server.Users.Deletion.Forgotten.{lead_ids, ids-update}
use leadflow_v3_server.Users.Transfers.{
  TransferSalesExecInput, TransferSalesExecResult, has_team_id, lock_ids, lock_teams,
  authorize_transfer, is_sales_exec_row, on_team, move_user, moved_lead, is_assigned_to, move_leads,
  log_transfer, transfer_row, write_transfer, transfer_checked, transfer_body, transfer_sales_exec,
  not_from_team, actor_team_of,
}

-- A Superadmin or an Analyst Team Lead, or a Main Team Lead of the team that the executive leaves.
pub data Allowed (input : TransferSalesExecInput) (from : Option String) : Type 0 where
  senior :
      (input.actor_role == role_superadmin || input.actor_role == role_analyst_team_lead) ≡ true
      → Allowed input from
  own_team :
      is_main_team_lead input.actor_role ≡ true
      → (actor_team_of input == "") ≡ false
      → trimmed from ≡ actor_team_of input
      → Allowed input from

own_team_facts :
    (input : TransferSalesExecInput) (from : Option String)
    → not_from_team input from ≡ false
    → ((actor_team_of input == "") ≡ false) × (trimmed from ≡ actor_team_of input)
own_team_facts input none h = ground arith
own_team_facts input (some t) h = ground (arith, eq_iff (trim_space t) (actor_team_of input))

senior_fact : (a b : Bool) → (not a && not b) ≡ false → (a || b) ≡ true
senior_fact a b h = ground arith

authorize_transfer_runs :
    (input : TransferSalesExecInput) (from : Option String) (d : Db)
    → Runs (authorize_transfer input from) d (λ _ d'. (d' ≡ d) × Allowed input from)
unfolding authorize_transfer ◌>>◌
authorize_transfer_runs input from d =
    Runs-if (is_main_team_lead input.actor_role) _ _ d _
      (λ m. Runs-refuse _ transfer_forbidden _ d _ λ h.
        Runs-weaken _ d _ _ (Runs-refuse_if _ same_team d)
          (λ _ d' q. let facts = own_team_facts input from h in (q.0, own_team m facts.0 facts.1)))
      (λ _.
        Runs-weaken _ d _ _ (Runs-refuse_if _ transfer_forbidden d)
          (λ _ d' q. (q.0, senior (senior_fact _ _ q.1))))

lock_teams_runs :
    (ids : List String) (d : Db) → Runs (lock_teams ids) d (λ _ d'. (d' ≡ d) × Unit {0})
unfolding lock_teams
lock_teams_runs [] d = Runs-pure tt d _ (refl, tt)
lock_teams_runs (id ∷ ids) d =
    Runs-query _ _ d _
      (Runs-read _ _ d _ _ (found_or_runs team_not_found _ d) λ t e. lock_teams_runs ids d)

pub find-move_user :
    (now : ℕ) (id team : String) (us : List UserRow) (u : UserRow)
    → (u.role == role_sales_executive) ≡ true
    → find (has_id id) us ≡ some u
    → find (has_id id) (update (is_sales_exec_row id) (on_team now team) us)
      ≡ some (on_team now team u)
find-move_user now id team [] u h e = cc
find-move_user now id team (v ∷ us) u h e = elim (text-cases v.id id) [
  | inl q ↦ ground (arith, eq_refl id)
  | inr q ↦ ground (arith, find-move_user now id team us u h)
]

-- Every lead that the executive holds after the UPDATE stands on the team, under its lead.
moved-All :
    (now : ℕ) (id team lead : String) (ls : List LeadRow)
    → All
        (λ l.
          is_assigned_to id l ≡ true
          → (l.team_id ≡ some team) × (l.assigned_main_team_lead_id ≡ some lead))
        (update (is_assigned_to id) (moved_lead now team lead) ls)
moved-All now id team lead [] = tt
moved-All now id team lead (l ∷ ls) = elim (Bool-cases (is_assigned_to id l)) [
  | inl e ↦ rw e ((λ _. (refl, refl)), moved-All now id team lead ls)
  | inr e ↦ rw e ((λ q. cc), moved-All now id team lead ls)
]

moved-count :
    (now : ℕ) (id team lead : String) (ls : List LeadRow)
    → count (is_assigned_to id) (update (is_assigned_to id) (moved_lead now team lead) ls)
      ≡ count (is_assigned_to id) ls
moved-count now id team lead [] = refl
moved-count now id team lead (l ∷ ls) = ground (arith, moved-count now id team lead ls)

-- The database after a transfer of the executive in row `row`, `moved` leads with it.
pub record Moved (now : ℕ) (uuid : String) (input : TransferSalesExecInput) (before : Db)
    (row : UserRow) (moved : ℕ) (d : Db) : Type 0 where
  pub executive : find (has_id (trim_space input.sales_exec_id)) before.users ≡ some row
  pub role : (row.role == role_sales_executive) ≡ true
  pub allowed : Allowed input row.team_id
  pub elsewhere : (trimmed row.team_id == trim_space input.to_team_id) ≡ false
  pub team : TeamRow
  pub destination : find (has_team_id (trim_space input.to_team_id)) before.teams ≡ some team
  pub stored :
      find (has_id (trim_space input.sales_exec_id)) d.users
      ≡ some (on_team now (trim_space input.to_team_id) row)
  pub leads :
      All
        (λ l.
          is_assigned_to (trim_space input.sales_exec_id) l ≡ true
          → (l.team_id ≡ some (trim_space input.to_team_id))
            × (l.assigned_main_team_lead_id ≡ some (trim_space team.main_team_lead_id)))
        d.leads
  pub counted : moved ≡ count (is_assigned_to (trim_space input.sales_exec_id)) d.leads
  pub kept : lead_ids d ≡ lead_ids before
  pub logged : d.transfers ≡ transfer_row now uuid input (trimmed row.team_id) ∷ before.transfers

write_transfer_runs :
    (now : ℕ) (uuid : String) (input : TransferSalesExecInput) (row : UserRow) (team : TeamRow)
    (d : Db)
    → find (has_id (trim_space input.sales_exec_id)) d.users ≡ some row
    → (row.role == role_sales_executive) ≡ true
    → Allowed input row.team_id
    → (trimmed row.team_id == trim_space input.to_team_id) ≡ false
    → find (has_team_id (trim_space input.to_team_id)) d.teams ≡ some team
    → Runs
        (write_transfer now uuid input (trimmed row.team_id) (trim_space team.main_team_lead_id))
        d
        (λ moved d'. Moved now uuid input d row moved d')
unfolding write_transfer exec ◌>>◌
write_transfer_runs now uuid input row team d e r a n t =
    let id = trim_space input.sales_exec_id in
    let to = trim_space input.to_team_id in
    let lead = trim_space team.main_team_lead_id in
    Runs-exec database _ (move_user now id to) _ d _ (
      Runs-refuse _ team_conflict _ _ _ λ _.
        Runs-exec database _ (move_leads now id to lead) _ _ _ (
          Runs-exec database _ (log_transfer (transfer_row now uuid input (trimmed row.team_id))) _
            _ _
            (Runs-pure _ _ _ (record {
              executive = e;
              role = r;
              allowed = a;
              elsewhere = n;
              team = team;
              destination = t;
              stored = find-move_user now id to d.users row r e;
              leads = moved-All now id to lead d.leads;
              counted = sym (moved-count now id to lead d.leads);
              kept = ids-update _ _ d.leads (λ _. refl);
              logged = refl;
            }))))

transfer_checked_runs :
    (now : ℕ) (uuid : String) (input : TransferSalesExecInput) (row : UserRow) (d : Db)
    → find (has_id (trim_space input.sales_exec_id)) d.users ≡ some row
    → Runs (transfer_checked now uuid input row) d (λ moved d'. Moved now uuid input d row moved d')
unfolding transfer_checked ◌>>◌
transfer_checked_runs now uuid input row d e = Runs-refuse _ not_sales_executive _ d _ λ r.
    Runs-refuse _ team_conflict _ d _ λ _.
      Runs-read _ _ d _ _ (authorize_transfer_runs input row.team_id d) λ _ a.
        Runs-refuse _ same_team _ d _ λ n.
          Runs-read _ _ d _ _
            (lock_teams_runs (lock_ids (trim_space input.to_team_id) (trimmed row.team_id)) d)
            λ _ _. Runs-query _ _ d _ (
              Runs-read _ _ d _ _ (found_or_runs team_not_found _ d) λ team t.
                Runs-refuse _ (message "destination team has no main team lead") _ d _
                  λ _. write_transfer_runs now uuid input row team d e (not-false _ r) a n t)
  where
    not-false : (b : Bool) → not b ≡ false → b ≡ true
    not-false b h = ground arith

-- What a successful call promises: the answer is about the database that it leaves.
pub record Transferred (now : ℕ) (uuid : String) (input : TransferSalesExecInput) (before : Db)
    (r : TransferSalesExecResult) (d : Db) : Type 0 where
  pub row : UserRow
  pub moved : Moved now uuid input before row r.leads_moved d
  pub user : r.user ≡ record row { team_id = some (trim_space input.to_team_id); updated_at = now }
  pub kept_user : find (has_id (trim_space input.sales_exec_id)) d.users ≡ some r.user

transfer_body_runs :
    (now : ℕ) (uuid : String) (input : TransferSalesExecInput) (d : Db)
    → Runs
        (transfer_body now uuid input)
        d
        (λ out d'. (row : UserRow) × Moved now uuid input d row out.0 d')
unfolding transfer_body
transfer_body_runs now uuid input d =
    Runs-read _ _ d _ _ (find_by_id_runs (trim_space input.sales_exec_id) d) λ row e.
      Runs-bind _ _ d _ _ (transfer_checked_runs now uuid input row d e)
        (λ moved d' h. Runs-pure (moved, row.team_id) d' _ (row, h))

-- A successful transfer was allowed to the actor, the account was a sales executive of another team, and
-- the destination exists. Afterwards the stored account, which is returned, is on that team and otherwise as
-- it was but for its time of change, every lead that it holds is on that team under
-- the team's lead, `leads_moved` counts these leads, no lead is lost, and the log holds one more entry.
pub transfer_sales_exec-Transferred :
    (now : ℕ) (uuid : String) (input : TransferSalesExecInput) (d : Db)
    → Runs (transfer_sales_exec now uuid input) d (λ r d'. Transferred now uuid input d r d')
unfolding transfer_sales_exec ◌>>◌
transfer_sales_exec-Transferred now uuid input d = Runs-refuse _ user_not_found _ d _ λ _.
    Runs-refuse _ team_not_found _ d _ λ _. Runs-refuse _ (message "actor is required") _ d _ λ _.
      Runs-bind _ _ d _ _ (Runs-transact _ d _ (transfer_body_runs now uuid input d)) λ out d' h.
        Runs-read _ _ d' _ _ (find_by_id_runs (trim_space input.sales_exec_id) d') λ user e.
          Runs-pure _ d' _
            (record { row = h.0; moved = h.1; user = same_row _ _ e h.1.stored; kept_user = e })
  where
    same_row : {o : Option UserRow} (u v : UserRow) → o ≡ some u → o ≡ some v → u ≡ v
    same_row u v p q = cc
