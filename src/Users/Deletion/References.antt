-- ===== src/Users/Deletion/References.antt =====
-- users.go, `UserStore.Delete`: the teams that the deleted account leads get another lead.
use leadflow_v3_server.Base.{
  ℕ, false≢true, String, Bool, true, false, none, some, List, [], ◌∷◌, ◌==◌, ◌≡◌, refl, sym, ◌∙◌,
  subst, inl, inr, ltb, update, keep, any, All, arith, Bool-cases, eq_iff, eq_refl,
}
use leadflow_v3_server.Db.{Db, UserRow, TeamRow}
use leadflow_v3_server.Db.Statements.{◌>>◌, exec, database, delete_blocked}
use leadflow_v3_server.Db.Triples.{Runs, Runs-pure, Runs-query, Runs-exec, Runs-read, Runs-weaken}
use leadflow_v3_server.Users.Superadmins.{found_or_runs}
use leadflow_v3_server.Users.Deletion.{
  led_teams, earliest, may_replace, set_main_team_lead, reassign_teams,
}

-- The teams that still name the account are among `names`.
abbrev pub Left : String → List String → List TeamRow → Type 0
Left id names ts =
    All (λ t. (t.main_team_lead_id == id) ≡ true → any (λ x. x == t.id) names ≡ true) ts

Left-weaken :
    (id x : String) (names : List String) (ts : List TeamRow)
    → Left id names ts
    → Left id (x ∷ names) ts
Left-weaken id x names [] h = tt
Left-weaken id x names (t ∷ ts) h = ((λ q. ground (arith, h.0 q)), Left-weaken id x names ts h.1)

led_teams-here :
    (id : String) (t : TeamRow) (ts : List TeamRow)
    → (t.main_team_lead_id == id) ≡ true
    → led_teams id (t ∷ ts) ≡ t.id ∷ led_teams id ts
led_teams-here id t ts e = rw e

led_teams-skip :
    (id : String) (t : TeamRow) (ts : List TeamRow)
    → (t.main_team_lead_id == id) ≡ false
    → led_teams id (t ∷ ts) ≡ led_teams id ts
led_teams-skip id t ts e = rw e

pub led_teams-Left : (id : String) (ts : List TeamRow) → Left id (led_teams id ts) ts
led_teams-Left id [] = tt
led_teams-Left id (t ∷ ts) = elim (Bool-cases (t.main_team_lead_id == id)) [
  | inl e ↦
      subst (λ names. Left id names (t ∷ ts)) (sym (led_teams-here id t ts e))
        ((λ _. ground (arith, eq_refl t.id)), Left-weaken id t.id _ ts (led_teams-Left id ts))
  | inr e ↦
      subst (λ names. Left id names (t ∷ ts)) (sym (led_teams-skip id t ts e))
        ((λ q. absurd (false≢true (sym e ∙ q))), led_teams-Left id ts)
]

set_main_team_lead-Left :
    (now : ℕ) (id team lead : String) (names : List String) (ts : List TeamRow)
    → (lead == id) ≡ false
    → Left id (team ∷ names) ts
    → Left id names (
        update
          (λ t. t.id == team)
          (λ t. record t { main_team_lead_id = lead; updated_at = now })
          ts)
set_main_team_lead-Left now id team lead names [] n h = tt
set_main_team_lead-Left now id team lead names (t ∷ ts) n h = elim (Bool-cases (t.id == team)) [
  | inl e ↦ rw e ((λ q. ground arith), set_main_team_lead-Left now id team lead names ts n h.1)
  | inr e ↦ rw e (
    (λ q. ground (arith, h.0 q, eq_iff team t.id, eq_iff t.id team)),
    set_main_team_lead-Left now id team lead names ts n h.1,
  )
]

pub Left-none :
    (id : String) (ts : List TeamRow)
    → Left id [] ts
    → All (λ t. (t.main_team_lead_id == id) ≡ false) ts
Left-none id [] h = tt
Left-none id (t ∷ ts) h = (ground (arith, h.0), Left-none id ts h.1)

keep-All : (p : UserRow → Bool) (us : List UserRow) → All (λ u. p u ≡ true) (keep p us)
keep-All p [] = tt
keep-All p (u ∷ us) = elim (Bool-cases (p u)) [
  | inl e ↦ rw e (e, keep-All p us)
  | inr e ↦ rw e (keep-All p us)
]

earliest-some-holds :
    (p : UserRow → Bool) (b r : UserRow) (us : List UserRow)
    → p b ≡ true
    → All (λ u. p u ≡ true) us
    → earliest (some b) us ≡ some r
    → p r ≡ true
earliest-some-holds p b r [] h a e = ground arith
earliest-some-holds p b r (u ∷ us) h a e = elim (Bool-cases (ltb u.created_at b.created_at)) [
  | inl q ↦ earliest-some-holds p u r us a.0 a.1 (rw q at e)
  | inr q ↦ earliest-some-holds p b r us h a.1 (rw q at e)
]

earliest-holds :
    (p : UserRow → Bool) (us : List UserRow) (r : UserRow)
    → All (λ u. p u ≡ true) us
    → earliest none us ≡ some r
    → p r ≡ true
earliest-holds p [] r a e = cc
earliest-holds p (u ∷ us) r a e = earliest-some-holds p u r us a.0 a.1 e

-- What the loop over the teams leaves alone, and what it achieves.
pub record Reassigned (id : String) (names : List String) (d d' : Db) : Type 0 where
  pub users : d'.users ≡ d.users
  pub leads : d'.leads ≡ d.leads
  pub left : Left id names d.teams → Left id [] d'.teams

replacement_ne :
    (now : ℕ) (id team : String) (lead : UserRow) (us : List UserRow)
    → earliest none (keep (may_replace id team) us) ≡ some lead
    → (lead.id == id) ≡ false
replacement_ne now id team lead us e =
    let h = earliest-holds (may_replace id team) _ lead (keep-All (may_replace id team) us) e in
    ground arith

pub reassign_teams_runs :
    (now : ℕ) (id : String) (names : List String) (d : Db)
    → Runs (reassign_teams now id names) d (λ _ d'. Reassigned id names d d')
unfolding reassign_teams exec ◌>>◌
reassign_teams_runs now id [] d =
    Runs-pure tt d _ (record { users = refl; leads = refl; left = λ h. h })
reassign_teams_runs now id (team ∷ names) d = Runs-query _ _ d _ (
    Runs-read _ _ d _ _ (found_or_runs delete_blocked _ d) λ lead e.
      Runs-exec database _ (set_main_team_lead now team lead.id) _ d _ (
        Runs-weaken _ _ _ _
          (reassign_teams_runs now id names (set_main_team_lead now team lead.id d))
          (λ _ d' r. record {
            users = r.users;
            leads = r.leads;
            left = λ h. r.left (
                set_main_team_lead-Left now id team lead.id names d.teams
                  (replacement_ne now id team lead d.users e) h);
          })))
