-- ===== src/Session.antt =====
-- session.go and httpx.go, `loadAuthedUser`: one live session for each account. `sha256_hex` stands for
-- the hash, `parse` for the token library behind `TokenService.Parse`.
pub mod Live
mod Tests
use leadflow_v3_server.Base.{
  ℕ, String, Option, none, some, Bool, true, false, not, ◌&&◌, ◌||◌, ◌==◌, trim_space,
  if◌then◌else◌,
}
use leadflow_v3_server.Roles.{is_valid_role}
use leadflow_v3_server.Db.{UserRow, Conn}
use leadflow_v3_server.Db.Statements.{Result, ok, err}
use leadflow_v3_server.Users.{coalesce_active, find_by_id, session_hash}
use leadflow_v3_server.Access.{AuthUser}

-- (clearLive, clearCookie)
unfoldable pub logout_action : String → String → Bool → Bool × Bool
logout_action raw_presented raw_jwt jwt_is_live =
    let presented = trim_space raw_presented in
    let jwt = trim_space raw_jwt in
    if not (presented == "") && not (jwt == "") && not (presented == jwt)
    then (false, false)
    else if not jwt_is_live
    then (false, false)
    else (true, true)

-- What of the request the check reads: `accessToken`, the session header and the `sid` of the query.
pub record Request : Type 0 where
  pub token : String
  pub session_header : String
  pub session_query : String

unfoldable pub client_presented_session_id : Request → String
client_presented_session_id r =
    if not (trim_space r.session_header == "")
    then trim_space r.session_header
    else trim_space r.session_query

pub data Authed : Type 0 where
  signed_in : UserRow → AuthUser → Authed
  refused : ℕ → String → Authed

abbrev pub invalid_token : Authed
invalid_token = refused 401 "invalid or expired token"

abbrev pub signed_in_elsewhere : Authed
signed_in_elsewhere = refused 401 "signed in elsewhere"

module _ (sha256_hex : String → String) where
  -- Equal lengths and a comparison in constant time are equality.
  unfoldable pub session_matches_hash : Option String → String → Bool
  unfolding session_hash
  session_matches_hash none jti = false
  session_matches_hash (some stored) jti =
      not (trim_space stored == "")
      && not (trim_space jti == "")
      && trim_space stored == session_hash sha256_hex (trim_space jti)

  unfoldable pub checked_user : Request → AuthUser → Result UserRow → Authed
  unfolding session_matches_hash client_presented_session_id
  checked_user r claims (err e) = invalid_token
  checked_user r claims (ok u) =
      let presented = client_presented_session_id r in
      if not (coalesce_active u.is_active)
      then refused 403 "account is inactive"
      else if not (is_valid_role u.role)
      then refused 403 "account role is invalid"
      else if not (session_matches_hash u.active_session_hash claims.session_id)
      then signed_in_elsewhere
      else if not (presented == "") && not (presented == claims.session_id)
      then signed_in_elsewhere
      else signed_in u claims

  abbrev pub checked_claims : Request → Option AuthUser → Conn → Authed
  checked_claims r none c = invalid_token
  checked_claims r (some claims) c = checked_user r claims (find_by_id claims.id c).0

  -- The answer only; the statement changes nothing.
  unfoldable pub load_authed_user : (String → Option AuthUser) → Request → Conn → Authed
  unfolding checked_user find_by_id
  load_authed_user parse r c =
      if r.token == ""
      then refused 401 "authentication required"
      else checked_claims r (parse r.token) c
