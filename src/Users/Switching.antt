-- ===== src/Users/Switching.antt =====
-- users.go, `SetActive`: when the switch succeeds.
use leadflow_v3_server.Base.{
  ℕ, String, Bool, true, false, not, ◌&&◌, some, ◌==◌, ◌≡◌, refl, sym, subst, leb, ◌<◌, find,
  trim_space, if◌then◌else◌, arith,
}
use leadflow_v3_server.Roles.{role_superadmin}
use leadflow_v3_server.Db.{Db, UserRow}
use leadflow_v3_server.Db.Statements.{
  M, pure, ◌>>=◌, ◌>>◌, exec, exec_or, user_not_found, cannot_deactivate_self,
  last_active_superadmin, database,
}
use leadflow_v3_server.Db.Totals.{
  Works, Works-pure, Works-refuse, Works-if, Works-query, Works-exec, Works-bind, Works-weaken,
  Works-Runs, Works-refuse_if,
}
use leadflow_v3_server.Users.{
  coalesce_active, bool_eq, found_or, has_id, find_by_id, activated, deactivated, switch_active,
  refuse_last_superadmin, switch_found, set_active,
}
use leadflow_v3_server.Users.Superadmins.{
  IsKeyed, active_superadmins, find-update, Switched, set_active-Switched,
}

pub find_by_id_works :
    (id : String) (u : UserRow) (d : Db)
    → find (has_id id) d.users ≡ some u
    → Works (find_by_id id) d (λ v d'. (d' ≡ d) × (v ≡ u))
unfolding find_by_id
find_by_id_works id u d e = Works-query _ _ d _ (
    subst (λ o. Works (found_or user_not_found o) d (λ v d'. (d' ≡ d) × (v ≡ u))) (sym e)
      (Works-pure u d _ (refl, refl)))

refuse_last_superadmin_works :
    (b : Bool) (d : Db)
    → (b && leb (active_superadmins d) 1) ≡ false
    → Works (refuse_last_superadmin b) d (λ _ d'. d' ≡ d)
unfolding refuse_last_superadmin
refuse_last_superadmin_works false d h = Works-pure tt d _ refl
refuse_last_superadmin_works true d h =
    Works-query _ _ d _ (Works-refuse_if _ last_active_superadmin d h)

switched_find :
    (active : Bool) (now : ℕ) (id : String) (d : Db) (u : UserRow)
    → find (has_id id) d.users ≡ some u
    → find (has_id id) (switch_active active now id d).users
      ≡ some (if active then activated now u else deactivated now u)
switched_find true now id d u e = find-update id (activated now) d.users u (λ _. refl) e
switched_find false now id d u e = find-update id (deactivated now) d.users u (λ _. refl) e

switch_found_works :
    (now : ℕ) (id : String) (active : Bool) (u : UserRow) (d : Db)
    → find (has_id id) d.users ≡ some u
    → ((not active && u.role == role_superadmin) && leb (active_superadmins d) 1) ≡ false
    → Works (switch_found now id active u) d (λ _ _. Unit)
unfolding switch_found exec ◌>>◌
switch_found_works now id active u d e l =
    Works-bind _ _ d _ _
      (refuse_last_superadmin_works (not active && u.role == role_superadmin) d l)
      λ _ d' h.
        subst
          (λ x.
            Works
              (exec_or database (λ _. tt {0}) (switch_active active now id) >>= λ _. find_by_id id)
              x (λ _ _. Unit))
          (sym h)
          (Works-exec database _ (switch_active active now id) _ d _ (
            Works-weaken _ _ _ _ (find_by_id_works id _ _ (switched_find active now id d u e))
              (λ _ _ _. tt)))

-- From the row on.
abbrev settled : ℕ → String → Bool → UserRow → M UserRow
settled now id active user =
    if bool_eq (coalesce_active user.is_active) active
    then pure user
    else switch_found now (trim_space id) active user

changes : (a b : Bool) → a ≡ false → (not a && b) ≡ false → b ≡ false
changes a b e h = ground arith

-- In a database with an active Superadmin, and with a server that answers, the switch of an account that is
-- stored succeeds, if it is not one's own deactivation and does not take the last active Superadmin from the
-- active to the inactive state. Then the account has the wanted state, the row returned is the one stored, and
-- there still is an active Superadmin.
pub set_active-works :
    (now : ℕ) (id actor : String) (active : Bool) (d : Db) (u : UserRow)
    → IsKeyed d.users
    → 0 < active_superadmins d
    → (trim_space id == "") ≡ false
    → (not active && trim_space id == trim_space actor) ≡ false
    → find (has_id (trim_space id)) d.users ≡ some u
    → (not (bool_eq (coalesce_active u.is_active) active)
        && ((not active && u.role == role_superadmin) && leb (active_superadmins d) 1))
      ≡ false
    → Works (set_active now id actor active) d (Switched (trim_space id) active)
unfolding set_active ◌>>◌ switch_found exec
set_active-works now id actor active d u k g n s e l =
    Works-Runs _ d (λ _ _. Unit) _
      (Works-refuse _ user_not_found _ d _ n (
        Works-refuse _ cannot_deactivate_self _ d _ s (
          Works-bind _ _ d _ _ (find_by_id_works (trim_space id) u d e) (λ a d' h.
            subst (λ x. Works (settled now id active a) x (λ _ _. Unit)) (sym h.0)
              (subst (λ v. Works (settled now id active v) d (λ _ _. Unit)) (sym h.1)
                (Works-if _ _ _ d _ (λ _. Works-pure u d _ tt)
                  (λ b. switch_found_works now (trim_space id) active u d e (changes _ _ b l))))))))
      (set_active-Switched now id actor active d k g)
