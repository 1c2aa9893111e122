-- ===== src/Session/Tests.antt =====
-- httpx.go and users.go: a session on a small workspace. The hash puts a letter before the text.
use leadflow_v3_server.Base.{
  String, false, Option, none, some, ◌≡◌, ◌==◌, refl, [], ◌∷◌, find, trim_space, if◌then◌else◌,
  Bool-cases, inl, inr,
}
use leadflow_v3_server.Roles.{role_sales_executive, is_valid_role}
use leadflow_v3_server.Db.{Conn, UserRow}
use leadflow_v3_server.Db.Statements.{◌>>=◌, query}
use leadflow_v3_server.Db.Triples.{Runs}
use leadflow_v3_server.Db.Samples.{workspace, calm, seller}
use leadflow_v3_server.Users.{has_id, replace_active_session}
use leadflow_v3_server.Access.{AuthUser}
use leadflow_v3_server.Session.{Request, load_authed_user}
use leadflow_v3_server.Session.Live.{
  IsLive, is_live_session, load_authed_user-IsLive, replace_active_session-only,
}

abbrev digest : String → String
digest s = if s == "new" then "0a" else "1b"

abbrev claims : AuthUser
claims = record {
  id = "seller";
  email = "a@b.c";
  name = "";
  role = role_sales_executive;
  team_id = none;
  analyst_team_name = none;
  session_id = "new";
}

abbrev parsed : String → Option AuthUser
parsed token = some claims

abbrev request : Request
request = record { token = "t"; session_header = ""; session_query = "new" }

abbrev session_user : UserRow
session_user = record seller { active_session_hash = some "0a" }

abbrev with_login : Conn
with_login = record calm { db = record workspace { users = session_user ∷ [] } }

load_authed_user-IsLive_example : IsLive digest parsed request with_login.db session_user claims
unfolding load_authed_user ◌>>=◌ query is_valid_role trim_space
load_authed_user-IsLive_example =
    load_authed_user-IsLive digest parsed request with_login session_user claims refl

digest_hex : (s : String) → (trim_space (digest s) ≡ digest s) × ((digest s == "") ≡ false)
unfolding trim_space
digest_hex s = elim (Bool-cases (s == "new")) [
  | inl e ↦ rw e (refl, refl)
  | inr e ↦ rw e (refl, refl)
]

replace_active_session-only_example :
    Runs
      (replace_active_session digest 9 "seller" "new")
      workspace
      (λ _ d'. is_live_session digest (find (has_id "seller") d'.users) "old" ≡ false)
unfolding trim_space
replace_active_session-only_example =
    replace_active_session-only digest 9 "seller" "new" "old" seller workspace digest_hex refl refl
