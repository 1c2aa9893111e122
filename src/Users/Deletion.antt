-- ===== src/Users/Deletion.antt =====
-- users.go, `UserStore.Delete`: one function for each UPDATE of the transaction, then their chain. The
-- foreign keys of migrations/000006 and migrations/000004 set what still names the account on a lead, or as the
-- actor of an entry of the status log, to NULL.
pub mod References
pub mod Forgotten
use leadflow_v3_server.Base.{
  ℕ, String, Bool, true, false, not, ◌&&◌, ◌||◌, Option, none, some, List, [], ◌∷◌, ◌==◌, leb, ltb,
  eqb, find, count, update, keep, map, trim_space, if◌then◌else◌,
}
use leadflow_v3_server.Roles.{role_superadmin, role_main_team_lead}
use leadflow_v3_server.Db.{Db, UserRow, LeadRow, TeamRow, QualificationRow}
use leadflow_v3_server.Db.Statements.{
  Error, M, pure, fail, ◌>>=◌, ◌>>◌, refuse_if, query, exec, exec_or, transact, user_not_found,
  cannot_delete_self, last_superadmin, delete_blocked,
}
use leadflow_v3_server.Users.{has_id, is_role, found_or, find_by_id, count_by_role}

-- `column = $1`, false on NULL
abbrev pub is_some_id : String → Option String → Bool
is_some_id id none = false
is_some_id id (some x) = x == id

-- `column <> $1` is not needed: these are the columns after SET NULL.
abbrev pub cleared : String → Option String → Option String
cleared id o = if is_some_id id o then none else o

abbrev pub is_stage : String → Option String → Bool
is_stage s none = false
is_stage s (some x) = x == s

-- `UPDATE "Lead" SET "createdById" = actor`
abbrev pub keep_creator : ℕ → String → String → Db → Db
keep_creator now id actor d = record d {
  leads =
      update (λ l. is_some_id id l.created_by_id)
        (λ l. record l { created_by_id = some actor; updated_at = now }) d.leads;
}

abbrev pub released_stage : Option String → Option String
released_stage s =
    if is_stage "WITH_EXECUTIVE" s || is_stage "WITH_TEAM_LEAD" s then some "PRE_SALES" else s

abbrev pub released : ℕ → LeadRow → LeadRow
released now l = record l {
  sales_stage = released_stage l.sales_stage;
  team_id = none;
  assigned_main_team_lead_id = none;
  assigned_sales_exec_id = none;
  exec_assigned_at = none;
  exec_deadline_at = none;
  updated_at = now;
}

abbrev pub release_leads : ℕ → String → Db → Db
release_leads now id d = record d {
  leads = update (λ l. is_some_id id l.assigned_sales_exec_id) (released now) d.leads;
}

abbrev pub clear_main_team_lead : ℕ → String → Db → Db
clear_main_team_lead now id d = record d {
  leads =
      update (λ l. is_some_id id l.assigned_main_team_lead_id)
        (λ l. record l { assigned_main_team_lead_id = none; updated_at = now }) d.leads;
}

abbrev pub clear_not_appropriate_by : ℕ → String → Db → Db
clear_not_appropriate_by now id d = record d {
  leads =
      update (λ l. is_some_id id l.not_appropriate_by_id)
        (λ l. record l { not_appropriate_by_id = none; updated_at = now }) d.leads;
}

abbrev pub unmanaged : ℕ → UserRow → UserRow
unmanaged now u = record u { manager_id = none; updated_at = now }

abbrev pub clear_manager : ℕ → String → Db → Db
clear_manager now id d = record d {
  users = update (λ u. is_some_id id u.manager_id) (unmanaged now) d.users;
}

abbrev pub without_analyst_lead : TeamRow → TeamRow
without_analyst_lead t = record t { analyst_team_lead_id = none }

abbrev pub clear_analyst_team_lead : String → Db → Db
clear_analyst_team_lead id d = record d {
  teams = update (λ t. is_some_id id t.analyst_team_lead_id) without_analyst_lead d.teams;
}

abbrev pub delete_api_keys : String → Db → Db
delete_api_keys id d = record d { api_keys = keep (λ k. not (k == id)) d.api_keys }

-- ON DELETE SET NULL on the four user columns of "Lead".
abbrev pub unlinked : String → LeadRow → LeadRow
unlinked id l = record l {
  created_by_id = cleared id l.created_by_id;
  assigned_main_team_lead_id = cleared id l.assigned_main_team_lead_id;
  assigned_sales_exec_id = cleared id l.assigned_sales_exec_id;
  not_appropriate_by_id = cleared id l.not_appropriate_by_id;
}

-- ON DELETE SET NULL on the actor of "LeadQualificationStatusLog".
abbrev pub anonymous : String → QualificationRow → QualificationRow
anonymous id r = record r { actor_id = cleared id r.actor_id }

abbrev pub delete_user_row : String → Db → Db
delete_user_row id d = record d {
  users = keep (λ u. not (has_id id u)) d.users;
  leads = map (unlinked id) d.leads;
  qualification_log = map (anonymous id) d.qualification_log;
}

-- `SELECT t.id … WHERE t."mainTeamLeadId" = $1`
abbrev pub led_teams : String → List TeamRow → List String
led_teams id [] = []
led_teams id (t ∷ ts) =
    if t.main_team_lead_id == id then t.id ∷ led_teams id ts else led_teams id ts

-- `ORDER BY "createdAt" ASC LIMIT 1`
abbrev pub earliest : Option UserRow → List UserRow → Option UserRow
earliest best [] = best
earliest none (u ∷ us) = earliest (some u) us
earliest (some b) (u ∷ us) = earliest (if ltb u.created_at b.created_at then some u else some b) us

abbrev pub may_replace : String → String → UserRow → Bool
may_replace id team u =
    u.role == role_main_team_lead && is_some_id team u.team_id && not (has_id id u)

abbrev pub set_main_team_lead : ℕ → String → String → Db → Db
set_main_team_lead now team lead d = record d {
  teams =
      update (λ t. t.id == team) (λ t. record t { main_team_lead_id = lead; updated_at = now })
        d.teams;
}

-- The loop over the teams that the account leads; the wrapped error is `delete_blocked`.
unfoldable pub reassign_teams : ℕ → String → List String → M (Unit {0})
reassign_teams now id [] = pure tt
reassign_teams now id (team ∷ teams) =
    query (λ d. earliest none (keep (may_replace id team) d.users)) >>= λ o.
    found_or delete_blocked o >>= λ lead.
    exec (λ _. tt) (set_main_team_lead now team lead.id) >> reassign_teams now id teams

unfoldable pub delete_body : ℕ → String → String → M (Unit {0})
unfolding reassign_teams
delete_body now id actor =
    (if not (actor == "") then exec (λ _. tt) (keep_creator now id actor) else pure tt)
    >> exec (λ _. tt) (release_leads now id)
    >> exec (λ _. tt) (clear_main_team_lead now id)
    >> exec (λ _. tt) (clear_not_appropriate_by now id)
    >> exec (λ _. tt) (clear_manager now id)
    >> query (λ d. led_teams id d.teams)
    >>= λ teams.
        reassign_teams now id teams
        >> exec (λ _. tt) (clear_analyst_team_lead id)
        >> exec (λ _. tt) (delete_api_keys id)
        >> exec_or delete_blocked (λ d. count (has_id id) d.users) (delete_user_row id)
        >>= λ rows. refuse_if (eqb rows 0) user_not_found

-- `if user.Role == RoleSuperadmin { … }`, which counts the inactive ones too
unfoldable pub refuse_last : Bool → M (Unit {0})
unfolding count_by_role
refuse_last false = pure tt
refuse_last true = count_by_role role_superadmin >>= λ n. refuse_if (leb n 1) last_superadmin

unfoldable pub delete : ℕ → String → String → M (Unit {0})
unfolding delete_body refuse_last find_by_id
delete now raw_id raw_actor =
    let id = trim_space raw_id in
    let actor = trim_space raw_actor in
    refuse_if (id == "") user_not_found
    >> refuse_if (id == actor) cannot_delete_self
    >> find_by_id id
    >>= λ user. refuse_last (user.role == role_superadmin) >> transact (delete_body now id actor)
