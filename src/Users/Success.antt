-- ===== src/Users/Success.antt =====
-- users.go, `TransferSalesExec`: when a transfer succeeds.
use leadflow_v3_server.Base.{
  ℕ, String, true, false, not, ◌&&◌, ◌||◌, Option, some, List, [], ◌∷◌, ◌==◌, ◌≡◌, ◌⊎◌, ◌∙◌, ap,
  refl, sym, subst, eqb, find, count, trim_space, arith, inl, inr, false≢true,
}
use leadflow_v3_server.Roles.{
  role_superadmin, role_analyst_team_lead, role_sales_executive, is_main_team_lead, trimmed,
}
use leadflow_v3_server.Db.{Db, UserRow, TeamRow}
use leadflow_v3_server.Db.Statements.{
  M, ◌>>=◌, ◌>>◌, refuse_if, exec, message, database, user_not_found, team_not_found,
  transfer_forbidden, team_conflict, same_team, not_sales_executive,
}
use leadflow_v3_server.Db.Totals.{
  Works, Works-pure, Works-refuse, Works-if, Works-query, Works-exec, Works-bind, Works-Runs,
  Works-refuse_if, Works-transact, Works-step, Works-read,
}
use leadflow_v3_server.Users.{has_id, found_or}
use leadflow_v3_server.Users.Switching.{find_by_id_works}
use leadflow_v3_server.Users.Transfers.{
  TransferSalesExecInput, has_team_id, lock_ids, lock_teams, authorize_transfer, is_sales_exec_row,
  on_team, move_user, move_leads, log_transfer, transfer_row, write_transfer, transfer_checked,
  transfer_body, transfer_sales_exec, not_from_team, actor_team_of,
}
use leadflow_v3_server.Users.Moves.{Transferred, transfer_sales_exec-Transferred, find-move_user}

authorize_transfer_senior :
    (input : TransferSalesExecInput) (from : Option String) (d : Db)
    → (input.actor_role == role_superadmin || input.actor_role == role_analyst_team_lead) ≡ true
    → is_main_team_lead input.actor_role ≡ false
    → Works (authorize_transfer input from) d (λ _ d'. d' ≡ d)
unfolding authorize_transfer
authorize_transfer_senior input from d s m =
    Works-if _ _ _ d _ (λ e. absurd (false≢true (sym m ∙ e)))
      (λ _. Works-refuse_if _ transfer_forbidden d (ground arith))

authorize_transfer_own :
    (input : TransferSalesExecInput) (from : Option String) (d : Db)
    → is_main_team_lead input.actor_role ≡ true
    → not_from_team input from ≡ false
    → (trim_space input.to_team_id == actor_team_of input) ≡ false
    → Works (authorize_transfer input from) d (λ _ d'. d' ≡ d)
unfolding authorize_transfer
authorize_transfer_own input from d m n s =
    Works-if _ _ _ d _
      (λ _. Works-refuse _ transfer_forbidden _ d _ n (Works-refuse_if _ same_team d s))
      (λ e. absurd (false≢true (sym e ∙ m)))

abbrev pub AllFound : List String → Db → Type 0
AllFound [] d = Unit
AllFound (id ∷ ids) d = ((t : TeamRow) × (find (has_team_id id) d.teams ≡ some t)) × AllFound ids d

lock_teams_works :
    (ids : List String) (d : Db) → AllFound ids d → Works (lock_teams ids) d (λ _ d'. d' ≡ d)
unfolding lock_teams
lock_teams_works [] d a = Works-pure tt d _ refl
lock_teams_works (id ∷ ids) d ((t, e), a) = Works-query _ _ d _ (
    subst (λ o. Works (found_or team_not_found o >>= λ _. lock_teams ids) d (λ _ d'. d' ≡ d))
      (sym e)
      (Works-bind _ _ d (λ _ d'. d' ≡ d) _ (Works-pure t d _ refl)
        (λ _ d' h.
          subst (λ x. Works (lock_teams ids) x (λ _ d'. d' ≡ d)) (sym h)
            (lock_teams_works ids d a))))

-- What must be stored, and be true of the request, for a transfer.
pub record CanMove (input : TransferSalesExecInput) (d : Db) : Type 0 where
  pub row : UserRow
  pub team : TeamRow
  pub exec_given : (trim_space input.sales_exec_id == "") ≡ false
  pub team_given : (trim_space input.to_team_id == "") ≡ false
  pub actor_given : (trim_space input.actor_id == "") ≡ false
  pub stored : find (has_id (trim_space input.sales_exec_id)) d.users ≡ some row
  pub role : (row.role == role_sales_executive) ≡ true
  pub unchanged :
      (not (trim_space input.expected_team_id == "")
        && not (trimmed row.team_id == trim_space input.expected_team_id))
      ≡ false
  pub allowed :
      ((input.actor_role == role_superadmin || input.actor_role == role_analyst_team_lead) ≡ true
        × (is_main_team_lead input.actor_role ≡ false))
      ⊎ ((is_main_team_lead input.actor_role ≡ true)
          × (not_from_team input row.team_id ≡ false)
          × ((trim_space input.to_team_id == actor_team_of input) ≡ false))
  pub another : (trimmed row.team_id == trim_space input.to_team_id) ≡ false
  pub locked : AllFound (lock_ids (trim_space input.to_team_id) (trimmed row.team_id)) d
  pub destination : find (has_team_id (trim_space input.to_team_id)) d.teams ≡ some team
  pub led : (trim_space team.main_team_lead_id == "") ≡ false
  pub once : count (is_sales_exec_row (trim_space input.sales_exec_id)) d.users ≡ 1

authorize_transfer_works :
    (input : TransferSalesExecInput) (d : Db) (c : CanMove input d)
    → Works (authorize_transfer input c.row.team_id) d (λ _ d'. d' ≡ d)
authorize_transfer_works input d c = elim c.allowed [
  | inl h ↦ authorize_transfer_senior input c.row.team_id d h.0 h.1
  | inr h ↦ authorize_transfer_own input c.row.team_id d h.0 h.1 h.2
]

-- The account is still found on the moved row.
abbrev Kept : TransferSalesExecInput → Db → Type 0
Kept input d = (u : UserRow) × (find (has_id (trim_space input.sales_exec_id)) d.users ≡ some u)

write_transfer_works :
    (now : ℕ) (uuid : String) (input : TransferSalesExecInput) (from lead : String) (d : Db)
    (c : CanMove input d)
    → Works (write_transfer now uuid input from lead) d (λ _ d'. Kept input d')
unfolding write_transfer exec ◌>>◌
write_transfer_works now uuid input from lead d c =
    let id = trim_space input.sales_exec_id in
    let to = trim_space input.to_team_id in
    Works-exec database _ (move_user now id to) _ d _ (
      Works-refuse _ team_conflict _ _ _ (subst (λ n. not (eqb n 1) ≡ false) (sym c.once) refl) (
        Works-exec database _ (move_leads now id to lead) _ _ _ (
          Works-exec database _ (log_transfer (transfer_row now uuid input from)) _ _ _ (
            Works-pure _ _ _
              (on_team now to c.row, find-move_user now id to d.users c.row c.role c.stored)))))

-- From the destination's row on.
abbrev led_write : ℕ → String → TransferSalesExecInput → UserRow → TeamRow → M ℕ
led_write now uuid input row team =
    refuse_if (trim_space team.main_team_lead_id == "")
      (message "destination team has no main team lead")
    >> write_transfer now uuid input (trimmed row.team_id) (trim_space team.main_team_lead_id)

transfer_checked_works :
    (now : ℕ) (uuid : String) (input : TransferSalesExecInput) (d : Db) (c : CanMove input d)
    → Works (transfer_checked now uuid input c.row) d (λ _ d'. Kept input d')
unfolding transfer_checked
transfer_checked_works now uuid input d c =
    let to = trim_space input.to_team_id in
    Works-refuse _ not_sales_executive _ d _ (ap not c.role) (
      Works-refuse _ team_conflict _ d _ c.unchanged (
        Works-step _ _ d _ (authorize_transfer_works input d c) (
          Works-refuse _ same_team _ d _ c.another (
            Works-step _ _ d _ (lock_teams_works _ d c.locked) (
              Works-query _ _ d _ (
                subst
                  (λ o.
                    Works (found_or team_not_found o >>= led_write now uuid input c.row) d
                      (λ _ d'. Kept input d'))
                  (sym c.destination)
                  (Works-read _ c.team _ d _ (Works-pure c.team d _ (refl, refl)) (
                    Works-refuse _ (message "destination team has no main team lead") _ d _ c.led (
                      write_transfer_works now uuid input (trimmed c.row.team_id)
                        (trim_space c.team.main_team_lead_id) d c)))))))))

-- With a server that answers, a transfer for which everything needed is stored and true succeeds, and what
-- `transfer_sales_exec-Transferred` states of a success holds.
pub transfer_sales_exec-works :
    (now : ℕ) (uuid : String) (input : TransferSalesExecInput) (d : Db)
    → CanMove input d
    → Works (transfer_sales_exec now uuid input) d (λ r d'. Transferred now uuid input d r d')
unfolding transfer_sales_exec transfer_body
transfer_sales_exec-works now uuid input d c =
    Works-Runs _ d (λ _ _. Unit) _
      (Works-refuse _ user_not_found _ d _ c.exec_given (
        Works-refuse _ team_not_found _ d _ c.team_given (
          Works-refuse _ (message "actor is required") _ d _ c.actor_given (
            Works-bind _ _ d (λ _ d'. Kept input d') _
              (Works-transact _ d _ (
                Works-read _ c.row _ d _ (find_by_id_works _ c.row d c.stored) (
                  Works-bind _ _ d (λ _ d'. Kept input d') _
                    (transfer_checked_works now uuid input d c)
                    (λ moved d' k. Works-pure _ d' _ k))))
              (λ out d' k.
                Works-read _ k.0 _ d' _ (find_by_id_works _ k.0 d' k.1) (Works-pure _ d' _ tt))))))
      (transfer_sales_exec-Transferred now uuid input d)
