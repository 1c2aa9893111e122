-- ===== src/Users/Superadmins.antt =====
-- users.go, `SetActive`: what the switch keeps, on every branch.
use leadflow_v3_server.Base.{
  ℕ, String, Bool, true, false, not, ◌&&◌, Option, none, some, Bool-cases, List, [], ◌∷◌, ◌==◌, ◌≡◌,
  false≢true, ◌<◌, ◌≤◌, ◌+◌, refl, sym, subst, leb, find, count, update, trim_space, All, arith,
  eq_refl, text-cases, inl, inr,
}
use leadflow_v3_server.Roles.{role_superadmin}
use leadflow_v3_server.Db.{Db, UserRow}
use leadflow_v3_server.Db.Statements.{
  Error, ◌>>◌, exec, user_not_found, cannot_deactivate_self, last_active_superadmin,
}
use leadflow_v3_server.Db.Triples.{
  Runs, Runs-pure, Runs-fail, Runs-refuse, Runs-query, Runs-exec, Runs-if, Runs-read,
  Runs-refuse_if, Runs-weaken,
}
use leadflow_v3_server.Users.{
  coalesce_active, bool_eq, found_or, has_id, find_by_id, is_active_role, activated, deactivated,
  switch_active, refuse_last_superadmin, switch_found, set_active,
}

-- The primary key of "User": no two rows share an id.
abbrev pub IsKeyed : List UserRow → Type 0
IsKeyed [] = Unit
IsKeyed (u ∷ us) = All (λ v. (v.id == u.id) ≡ false) us × IsKeyed us

abbrev pub active_superadmins : Db → ℕ
active_superadmins d = count (is_active_role role_superadmin) d.users

pub found_or_runs :
    {A : Type 0} (e : Error) (o : Option A) (d : Db)
    → Runs (found_or e o) d (λ a d'. (d' ≡ d) × (o ≡ some a))
found_or_runs e none d = Runs-fail e d _
found_or_runs e (some a) d = Runs-pure a d _ (refl, refl)

pub find_by_id_runs :
    (id : String) (d : Db)
    → Runs (find_by_id id) d (λ u d'. (d' ≡ d) × (find (has_id id) d.users ≡ some u))
unfolding find_by_id
find_by_id_runs id d = Runs-query _ _ d _ (found_or_runs user_not_found _ d)

count_absent :
    (id : String) (f : UserRow → UserRow) (p : UserRow → Bool) (us : List UserRow)
    → All (λ v. (v.id == id) ≡ false) us
    → count p (update (has_id id) f us) ≡ count p us
count_absent id f p [] h = refl
count_absent id f p (u ∷ us) h = ground (arith, count_absent id f p us h.1)

-- An UPDATE of one account changes a count by one at most.
count-update_le :
    (id : String) (f : UserRow → UserRow) (p : UserRow → Bool) (us : List UserRow)
    → IsKeyed us
    → count p us ≤ count p (update (has_id id) f us) + 1
count-update_le id f p [] h = omega arith
count-update_le id f p (u ∷ us) h = elim (text-cases u.id id) [
  | inl e ↦ ground (
    arith,
    count_absent id f p us (subst (λ x. All (λ v. (v.id == x) ≡ false) us) e h.0),
    eq_refl id,
  )
  | inr e ↦ ground (arith, count-update_le id f p us h.1)
]

count-activate_le :
    (id : String) (now : ℕ) (us : List UserRow)
    → count (is_active_role role_superadmin) us
      ≤ count (is_active_role role_superadmin) (update (has_id id) (activated now) us)
count-activate_le id now [] = omega arith
count-activate_le id now (u ∷ us) = ground (arith, count-activate_le id now us)

count-update_other_le :
    (id : String) (f : UserRow → UserRow) (p : UserRow → Bool) (us : List UserRow) (u : UserRow)
    → IsKeyed us
    → find (has_id id) us ≡ some u
    → p u ≡ false
    → count p us ≤ count p (update (has_id id) f us)
count-update_other_le id f p [] u k e h = omega arith
count-update_other_le id f p (v ∷ us) u k e h = elim (text-cases v.id id) [
  | inl q ↦ ground (
    arith,
    count_absent id f p us (subst (λ x. All (λ v. (v.id == x) ≡ false) us) q k.0),
    eq_refl id,
  )
  | inr q ↦ ground (arith, count-update_other_le id f p us u k.1)
]

pub find-update :
    (id : String) (f : UserRow → UserRow) (us : List UserRow) (u : UserRow)
    → ((v : UserRow) → (f v).id ≡ v.id)
    → find (has_id id) us ≡ some u
    → find (has_id id) (update (has_id id) f us) ≡ some (f u)
find-update id f [] u keeps e = cc
find-update id f (v ∷ us) u keeps e = elim (text-cases v.id id) [
  | inl q ↦ ground (arith, keeps v, eq_refl id)
  | inr q ↦ ground (arith, find-update id f us u keeps)
]

-- What a successful switch leaves behind.
pub record Switched (id : String) (active : Bool) (u : UserRow) (d : Db) : Type 0 where
  pub stored : find (has_id id) d.users ≡ some u
  pub wanted : coalesce_active u.is_active ≡ active
  pub guarded : 0 < active_superadmins d

many : (n : ℕ) → leb n 1 ≡ false → 1 < n
many n h = ground arith

refuse_last_superadmin_runs :
    (b : Bool) (d : Db)
    → Runs (refuse_last_superadmin b) d (λ _ d'. (d' ≡ d) × (b ≡ true → 1 < active_superadmins d))
unfolding refuse_last_superadmin
refuse_last_superadmin_runs false d = Runs-pure tt d _ (refl, λ h. absurd (false≢true h))
refuse_last_superadmin_runs true d = Runs-query _ _ d _ (
    Runs-weaken _ d _ _ (Runs-refuse_if _ last_active_superadmin d)
      (λ _ d' h. (h.0, λ _. many (active_superadmins d) h.1)))

switch_active_guarded :
    (active : Bool) (now : ℕ) (id : String) (d : Db) (u : UserRow)
    → IsKeyed d.users
    → 0 < active_superadmins d
    → find (has_id id) d.users ≡ some u
    → ((not active && u.role == role_superadmin) ≡ true → 1 < active_superadmins d)
    → 0 < active_superadmins (switch_active active now id d)
switch_active_guarded true now id d u k g e h = omega (arith, count-activate_le id now d.users)
switch_active_guarded false now id d u k g e h = elim (Bool-cases (u.role == role_superadmin)) [
  | inl q ↦
      let many = h q in
      omega (arith, count-update_le id (deactivated now) (is_active_role role_superadmin) d.users k)
  | inr q ↦ omega (
    arith,
    count-update_other_le id (deactivated now) (is_active_role role_superadmin) d.users u k e
        (ground arith),
  )
]

switch_active-find :
    (active : Bool) (now : ℕ) (id : String) (d : Db) (u v : UserRow)
    → find (has_id id) d.users ≡ some u
    → find (has_id id) (switch_active active now id d).users ≡ some v
    → coalesce_active v.is_active ≡ active
switch_active-find true now id d u v e q =
    ground (arith, find-update id (activated now) d.users u (λ _. refl) e)
switch_active-find false now id d u v e q =
    ground (arith, find-update id (deactivated now) d.users u (λ _. refl) e)

switch_found_runs :
    (now : ℕ) (id : String) (active : Bool) (user : UserRow) (d : Db)
    → IsKeyed d.users
    → 0 < active_superadmins d
    → find (has_id id) d.users ≡ some user
    → Runs (switch_found now id active user) d (Switched id active)
unfolding switch_found exec ◌>>◌
switch_found_runs now id active user d k g e =
    Runs-read _ _ d _ _ (refuse_last_superadmin_runs (not active && user.role == role_superadmin) d)
      λ _ h. Runs-exec _ _ (switch_active active now id) _ d _ (
        Runs-weaken _ _ _ _ (find_by_id_runs id (switch_active active now id d)) (λ v d' q.
          subst (Switched id active v) (sym q.0) (record {
            stored = q.1;
            wanted = switch_active-find active now id d user v e q.1;
            guarded = switch_active_guarded active now id d user k g e h;
          })))

same_bool : (a b : Bool) → bool_eq a b ≡ true → a ≡ b
same_bool a b h = ground arith

-- A successful call leaves the named account in the wanted state, returns the row that is then stored, and
-- never leaves the workspace without an active Superadmin if there was one.
pub set_active-Switched :
    (now : ℕ) (id actor : String) (active : Bool) (d : Db)
    → IsKeyed d.users
    → 0 < active_superadmins d
    → Runs (set_active now id actor active) d (Switched (trim_space id) active)
unfolding set_active ◌>>◌
set_active-Switched now id actor active d k g = Runs-refuse _ user_not_found _ d _ λ _.
    Runs-refuse _ cannot_deactivate_self _ d _ λ _.
      Runs-read _ _ d _ _ (find_by_id_runs (trim_space id) d) λ user e.
        Runs-if (bool_eq (coalesce_active user.is_active) active) _ _ d _
          (λ same.
            Runs-pure user d _ (record { stored = e; wanted = same_bool _ _ same; guarded = g }))
          (λ _. switch_found_runs now (trim_space id) active user d k g e)
