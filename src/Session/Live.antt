-- ===== src/Session/Live.antt =====
-- httpx.go, `loadAuthedUser`, and users.go, `ReplaceActiveSession`: who is let in, and that a new session
-- is the only one.
use leadflow_v3_server.Base.{
  ℕ, ◌≢◌, String, Option, none, some, Bool, true, false, not, ◌&&◌, ◌||◌, ◌==◌, ◌≡◌, ◌⊎◌, refl, sym,
  ap, subst, ◌∙◌, text-cases, find, trim_space, trim_space_idem, if◌then◌else◌, inl, inr, eq_iff,
}
use leadflow_v3_server.Roles.{is_valid_role}
use leadflow_v3_server.Db.{Db, UserRow, Conn, Reply}
use leadflow_v3_server.Db.Reply.{fine, failed, restricted}
use leadflow_v3_server.Db.Statements.{
  Error, database, Result, ok, err, continue, answered, next_reply, later, query, exec, exec_or,
  ◌>>=◌, session_id_required,
}
use leadflow_v3_server.Db.Triples.{Runs, Runs-refuse, Runs-exec_last, Runs-weaken}
use leadflow_v3_server.Users.{
  coalesce_active, has_id, found_or, find_by_id, session_hash, with_session, replace_active_session,
}
use leadflow_v3_server.Users.Superadmins.{find-update}
use leadflow_v3_server.Access.{AuthUser}
use leadflow_v3_server.Session.{
  Request, client_presented_session_id, Authed, signed_in, refused, session_matches_hash,
  checked_user, checked_claims, load_authed_user,
}

module _ (sha256_hex : String → String) where
  -- What a request that is let in has shown.
  pub record IsLive (parse : String → Option AuthUser) (r : Request) (d : Db) (u : UserRow)
      (a : AuthUser) : Type 0 where
    pub claimed : parse r.token ≡ some a
    pub stored : find (has_id a.id) d.users ≡ some u
    pub active : coalesce_active u.is_active ≡ true
    pub role : is_valid_role u.role ≡ true
    pub live : session_matches_hash sha256_hex u.active_session_hash a.session_id ≡ true
    pub tab : (client_presented_session_id r ≡ "") ⊎ (client_presented_session_id r ≡ a.session_id)

refused_ne : (n : ℕ) (t : String) (u : UserRow) (a : AuthUser) → refused n t ≢ signed_in u a
refused_ne n t u a e = cc

checks :
    (active role live blank same : Bool) (w x y z q : Authed)
    → w ≢ q
    → x ≢ q
    → y ≢ q
    → (if not active
        then w
        else if not role
        then x
        else if not live
        then y
        else if not blank && not same
        then y
        else z)
      ≡ q
    → (active ≡ true) × (role ≡ true) × (live ≡ true) × ((blank || same) ≡ true) × (z ≡ q)
checks false role live blank same w x y z q f g h e = absurd (f e)
checks true false live blank same w x y z q f g h e = absurd (g e)
checks true true false blank same w x y z q f g h e = absurd (h e)
checks true true true true same w x y z q f g h e = (refl, refl, refl, refl, e)
checks true true true false false w x y z q f g h e = absurd (h e)
checks true true true false true w x y z q f g h e = (refl, refl, refl, refl, e)

user_of : Authed → UserRow → UserRow
user_of (signed_in u a) v = u
user_of (refused n t) v = v

claims_of : Authed → AuthUser → AuthUser
claims_of (signed_in u a) b = a
claims_of (refused n t) b = b

found_ok :
    {A : Type 0} (o : Option A) (r : Reply) (u : A) (c c' : Conn)
    → (continue (answered database r o c c') (found_or Error.user_not_found)).0 ≡ ok u
    → o ≡ some u
found_ok none fine u c c' e = cc
found_ok (some v) fine u c c' e = cc
found_ok o failed u c c' e = cc
found_ok o restricted u c c' e = cc

find_by_id_ok :
    (id : String) (u : UserRow) (c : Conn)
    → (find_by_id id c).0 ≡ ok u
    → find (has_id id) c.db.users ≡ some u
unfolding find_by_id query ◌>>=◌
find_by_id_ok id u c e =
    found_ok (find (has_id id) c.db.users) (next_reply c) u (later c) (later c) e

tab_of : (s t : String) → (s == "" || s == t) ≡ true → (s ≡ "") ⊎ (s ≡ t)
tab_of s t h = elim (text-cases s "") [
  | inl e ↦ inl e
  | inr e ↦ inr ((eq_iff s t).0 (ap (λ b. b || s == t) (sym e) ∙ h))
]

past : (b : Bool) (x y q : Authed) → x ≢ q → (if b then x else y) ≡ q → y ≡ q
past true x y q n e = absurd (n e)
past false x y q n e = e

module _ (sha256_hex : String → String) where
  checked_user-IsLive :
      (parse : String → Option AuthUser) (r : Request) (claims : AuthUser) (c : Conn) (u : UserRow)
      (a : AuthUser) (v : UserRow)
      → parse r.token ≡ some claims
      → (find_by_id claims.id c).0 ≡ ok v
      → checked_user sha256_hex r claims (ok v) ≡ signed_in u a
      → IsLive sha256_hex parse r c.db u a
  unfolding checked_user claims_of user_of
  checked_user-IsLive parse r claims c u a v p f e =
      let all =
        checks (coalesce_active v.is_active) (is_valid_role v.role)
          (session_matches_hash sha256_hex v.active_session_hash claims.session_id)
          (client_presented_session_id r == "") (client_presented_session_id r == claims.session_id)
          _ _ _ _ (signed_in u a) (refused_ne 403 "account is inactive" u a)
          (refused_ne 403 "account role is invalid" u a) (refused_ne 401 "signed in elsewhere" u a)
          e in
      subst (λ w. IsLive sha256_hex parse r c.db w a) (ap (λ x. user_of x v) all.4)
        (subst (IsLive sha256_hex parse r c.db v) (ap (λ x. claims_of x claims) all.4) (record {
          claimed = p;
          stored = find_by_id_ok claims.id v c f;
          active = all.0;
          role = all.1;
          live = all.2;
          tab = tab_of _ _ all.3;
        }))

  result-IsLive :
      (parse : String → Option AuthUser) (r : Request) (claims : AuthUser) (c : Conn) (u : UserRow)
      (a : AuthUser) (found : Result UserRow)
      → parse r.token ≡ some claims
      → (find_by_id claims.id c).0 ≡ found
      → checked_user sha256_hex r claims found ≡ signed_in u a
      → IsLive sha256_hex parse r c.db u a
  unfolding checked_user
  result-IsLive parse r claims c u a (ok v) p f e = checked_user-IsLive parse r claims c u a v p f e
  result-IsLive parse r claims c u a (err x) p f e =
      absurd (refused_ne 401 "invalid or expired token" u a e)

  claims-IsLive :
      (parse : String → Option AuthUser) (r : Request) (c : Conn) (u : UserRow) (a : AuthUser)
      (claims : Option AuthUser)
      → parse r.token ≡ claims
      → checked_claims sha256_hex r claims c ≡ signed_in u a
      → IsLive sha256_hex parse r c.db u a
  claims-IsLive parse r c u a none p e = absurd (refused_ne 401 "invalid or expired token" u a e)
  claims-IsLive parse r c u a (some claims) p e =
      result-IsLive parse r claims c u a (find_by_id claims.id c).0 p refl e

  -- A request is let in only with a token that parses, for an account that is stored, active and of a
  -- known role, whose live session is the token's; a tab that names a session names that one.
  pub load_authed_user-IsLive :
      (parse : String → Option AuthUser) (r : Request) (c : Conn) (u : UserRow) (a : AuthUser)
      → load_authed_user sha256_hex parse r c ≡ signed_in u a
      → IsLive sha256_hex parse r c.db u a
  unfolding load_authed_user
  load_authed_user-IsLive parse r c u a e =
      claims-IsLive parse r c u a (parse r.token) refl
        (past (r.token == "") _ _ _ (refused_ne 401 "authentication required" u a) e)

  -- Whether a session id is the live one of the row found.
  abbrev pub is_live_session : Option UserRow → String → Bool
  is_live_session none jti = false
  is_live_session (some u) jti = session_matches_hash sha256_hex u.active_session_hash jti

  stored_matches :
      (now : ℕ) (jti other : String) (u : UserRow)
      → ((s : String) → (trim_space (sha256_hex s) ≡ sha256_hex s) × ((sha256_hex s == "") ≡ false))
      → (trim_space other == "") ≡ false
      → is_live_session
          (some (with_session sha256_hex now (session_hash sha256_hex (trim_space jti)) u))
          other
        ≡ (sha256_hex (trim_space jti) == sha256_hex (trim_space other))
  unfolding session_matches_hash session_hash
  stored_matches now jti other u hash n =
      rw
        (
          trim_space_idem jti,
          trim_space_idem other,
          (hash (trim_space jti)).0,
          (hash (trim_space jti)).1,
          n,
        )
        refl

  -- After a sign-in of a stored account its live session is the new one alone: a session id that is not
  -- blank is accepted exactly if it has the same hash. A hash is a text without blanks at its ends, and not empty.
  pub replace_active_session-only :
      (now : ℕ) (id jti other : String) (u : UserRow) (d : Db)
      → ((s : String) → (trim_space (sha256_hex s) ≡ sha256_hex s) × ((sha256_hex s == "") ≡ false))
      → find (has_id (trim_space id)) d.users ≡ some u
      → (trim_space other == "") ≡ false
      → Runs (replace_active_session sha256_hex now id jti) d (λ _ d'.
        is_live_session (find (has_id (trim_space id)) d'.users) other
        ≡ (sha256_hex (trim_space jti) == sha256_hex (trim_space other)))
  unfolding replace_active_session exec exec_or
  replace_active_session-only now id jti other u d hash e n =
      Runs-refuse _ session_id_required _ d _ λ _. Runs-refuse _ session_id_required _ d _ λ _.
        Runs-weaken _ d _ _ (Runs-exec_last database _ _ d) λ _ d' h.
          let f = with_session sha256_hex now (session_hash sha256_hex (trim_space jti)) in
          ap (λ x. is_live_session (find (has_id (trim_space id)) x.users) other) h.0
          ∙ ap (λ o. is_live_session o other)
              (find-update (trim_space id) f d.users u (λ _. refl) e)
          ∙ stored_matches now jti other u hash n
