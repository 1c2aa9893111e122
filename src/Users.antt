-- ===== src/Users.antt =====
-- users.go, `UserStore`: lookups, the switch between active and inactive accounts, and the live session.
-- `now` stands for the clock, `sha256_hex` for the hash of session.go.
pub mod Deletion
pub mod Superadmins
pub mod Switching
pub mod Transfers
pub mod Moves
pub mod Analysts
pub mod Regrouped
pub mod Success
mod Tests
use leadflow_v3_server.Base.{
  ℕ, String, Bool, true, false, not, ◌&&◌, Option, none, some, List, [], ◌∷◌, ◌==◌, leb, find,
  count, update, keep, trim_space, if◌then◌else◌,
}
use leadflow_v3_server.Roles.{role_superadmin}
use leadflow_v3_server.Db.{Db, UserRow}
use leadflow_v3_server.Db.Statements.{
  Error, M, pure, fail, ◌>>=◌, ◌>>◌, refuse_if, query, exec, user_not_found, cannot_deactivate_self,
  last_active_superadmin, session_id_required,
}

-- COALESCE("isActive", TRUE)
abbrev pub coalesce_active : Option Bool → Bool
coalesce_active none = true
coalesce_active (some b) = b

abbrev pub bool_eq : Bool → Bool → Bool
bool_eq true b = b
bool_eq false b = not b

-- The row that a query found, or the error for `pgx.ErrNoRows`.
abbrev pub found_or : {A : Type 0} → Error → Option A → M A
found_or e none = fail e
found_or e (some a) = pure a

abbrev pub has_id : String → UserRow → Bool
has_id id u = u.id == id

unfoldable pub find_by_id : String → M UserRow
find_by_id id = query (λ d. find (has_id id) d.users) >>= found_or user_not_found

abbrev pub is_role : String → UserRow → Bool
is_role role u = u.role == role

abbrev pub is_active_role : String → UserRow → Bool
is_active_role role u = u.role == role && coalesce_active u.is_active

unfoldable pub count_by_role : String → M ℕ
count_by_role role = query (λ d. count (is_role role) d.users)

unfoldable pub count_active_by_role : String → M ℕ
count_active_by_role role = query (λ d. count (is_active_role role) d.users)

abbrev pub activated : ℕ → UserRow → UserRow
activated now u = record u { is_active = some true; updated_at = now }

abbrev pub deactivated : ℕ → UserRow → UserRow
deactivated now u = record u {
  is_active = some false;
  active_session_hash = none;
  active_session_set_at = none;
  updated_at = now;
}

-- The UPDATE of either branch.
abbrev pub switch_active : Bool → ℕ → String → Db → Db
switch_active true now id d = record d { users = update (has_id id) (activated now) d.users }
switch_active false now id d = record d { users = update (has_id id) (deactivated now) d.users }

-- `if !active && user.Role == RoleSuperadmin { … }`
unfoldable pub refuse_last_superadmin : Bool → M (Unit {0})
unfolding count_active_by_role
refuse_last_superadmin false = pure tt
refuse_last_superadmin true =
    count_active_by_role role_superadmin >>= λ n. refuse_if (leb n 1) last_active_superadmin

-- From the check on, for an account that is not yet in the wanted state.
unfoldable pub switch_found : ℕ → String → Bool → UserRow → M UserRow
unfolding refuse_last_superadmin find_by_id
switch_found now id active user =
    refuse_last_superadmin (not active && user.role == role_superadmin)
    >> exec (λ _. tt) (switch_active active now id)
    >> find_by_id id

unfoldable pub set_active : ℕ → String → String → Bool → M UserRow
unfolding switch_found find_by_id
set_active now raw_id raw_actor active =
    let id = trim_space raw_id in
    let actor = trim_space raw_actor in
    refuse_if (id == "") user_not_found
    >> refuse_if (not active && id == actor) cannot_deactivate_self
    >> (find_by_id id >>= λ user.
        if bool_eq (coalesce_active user.is_active) active
        then pure user
        else switch_found now id active user)

module _ (sha256_hex : String → String) where
  -- session.go `sessionHash`
  unfoldable pub session_hash : String → String
  session_hash jti = sha256_hex (trim_space jti)

  abbrev pub with_session : ℕ → String → UserRow → UserRow
  with_session now hash u = record u {
    active_session_hash = some hash;
    active_session_set_at = some now;
    updated_at = now;
  }

  abbrev pub without_session : ℕ → UserRow → UserRow
  without_session now u = record u {
    active_session_hash = none;
    active_session_set_at = none;
    updated_at = now;
  }

  unfoldable pub replace_active_session : ℕ → String → String → M (Unit {0})
  unfolding session_hash
  replace_active_session now raw_id raw_jti =
      let id = trim_space raw_id in
      let jti = trim_space raw_jti in
      refuse_if (id == "") session_id_required
      >> refuse_if (jti == "") session_id_required
      >> exec (λ _. tt)
          (λ d. record d {
            users = update (has_id id) (with_session now (session_hash jti)) d.users;
          })

  -- "activeSessionHash" = $2, false on NULL
  abbrev holds_session : String → Option String → Bool
  holds_session hash none = false
  holds_session hash (some h) = h == hash

  unfoldable pub clear_active_session_if_current : ℕ → String → String → M (Unit {0})
  unfolding session_hash
  clear_active_session_if_current now raw_id raw_jti =
      let id = trim_space raw_id in
      let jti = trim_space raw_jti in
      if id == ""
      then pure tt
      else if jti == ""
      then pure tt
      else exec (λ _. tt)
          (λ d. record d {
            users =
                update (λ u. has_id id u && holds_session (session_hash jti) u.active_session_hash)
                  (without_session now) d.users;
          })
