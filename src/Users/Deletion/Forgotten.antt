-- ===== src/Users/Deletion/Forgotten.antt =====
-- users.go, `UserStore.Delete`: the references to a deleted account are gone, and no lead is lost.
use leadflow_v3_server.Base.{
  ℕ, String, Bool, false, List, [], ◌∷◌, ◌==◌, ◌≡◌, refl, update, map, any, All, arith,
}
use leadflow_v3_server.Db.{Db, LeadRow}
use leadflow_v3_server.Users.{has_id}
use leadflow_v3_server.Users.Deletion.{
  is_some_id, release_leads, clear_main_team_lead, clear_not_appropriate_by, clear_manager,
  clear_analyst_team_lead, delete_api_keys, delete_user_row,
}

abbrev pub lead_ids : Db → List String
lead_ids d = map (λ l. l.id) d.leads

abbrev NamesNot : String → LeadRow → Type 0
NamesNot id l =
    (is_some_id id l.created_by_id ≡ false)
    × (is_some_id id l.assigned_main_team_lead_id ≡ false)
    × (is_some_id id l.assigned_sales_exec_id ≡ false)
    × (is_some_id id l.not_appropriate_by_id ≡ false)

-- The references to the account `id` are gone, and the leads are those of the database `before`.
pub record Forgotten (id : String) (before d : Db) : Type 0 where
  pub gone : All (λ u. has_id id u ≡ false) d.users
  pub managers : All (λ u. is_some_id id u.manager_id ≡ false) d.users
  pub leads : All (NamesNot id) d.leads
  pub team_leads : All (λ t. (t.main_team_lead_id == id) ≡ false) d.teams
  pub analyst_leads : All (λ t. is_some_id id t.analyst_team_lead_id ≡ false) d.teams
  pub keys : any (λ k. k == id) d.api_keys ≡ false
  pub entries : All (λ r. is_some_id id r.actor_id ≡ false) d.qualification_log
  pub kept : lead_ids d ≡ lead_ids before

pub ids-update :
    (p : LeadRow → Bool) (f : LeadRow → LeadRow) (ls : List LeadRow)
    → ((l : LeadRow) → (f l).id ≡ l.id)
    → map (λ l. l.id) (update p f ls) ≡ map (λ l. l.id) ls
ids-update p f [] h = refl
ids-update p f (l ∷ ls) h = ground (arith, ids-update p f ls h, h l)

-- The writes before the teams are looked up, after the creator was kept.
abbrev detached : ℕ → String → Db → Db
detached now id d =
    clear_manager now id
      (clear_not_appropriate_by now id (clear_main_team_lead now id (release_leads now id d)))

-- The writes after the teams have a new lead.
abbrev erased : String → Db → Db
erased id d = delete_user_row id (delete_api_keys id (clear_analyst_team_lead id d))
