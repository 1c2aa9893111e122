-- ===== src/Access/Agreement.antt =====
-- handlers.go, `requireLeadAccess`, against the SQL conditions of the bulk handlers.
use leadflow_v3_server.Base.{
  String, Option, none, some, Bool, true, false, false≢true, ◌&&◌, List, [], ◌∷◌, ◌==◌, ◌≡◌, refl,
  sym, ap, ◌∙◌, any, lookup, trim_space, trim_space_idem, if◌then◌else◌, arith,
}
use leadflow_v3_server.Roles.{
  role_superadmin, role_analyst_team_lead, role_lead_analyst, role_main_team_lead,
  role_sales_executive, is_main_team_lead, is_lead_analyst, is_sales_executive,
  is_analyst_team_lead, can_view_lead_data, is_valid_role, lead_data_owner_id, lead_team_scope_id,
  lead_sales_exec_scope_id, lead_analyst_team_lead_id, deref_team_name, trimmed,
}
use leadflow_v3_server.Roles.Ranks.{role_elim, IsUnknown}
use leadflow_v3_server.Db.{Db, LeadRow, UserRow, Conn}
use leadflow_v3_server.Db.Statements.{ok, query}
use leadflow_v3_server.Leads.Visibility.{
  in_scope, in_analyst_scope, narrows, lead_exists, is_created_by, is_on_team,
  is_assigned_to_sales_exec, is_created_by_analyst_team,
}
use leadflow_v3_server.Users.Deletion.{is_some_id}
use leadflow_v3_server.Access.{
  AuthUser, granted, actor_lead_owner_id, actor_lead_sales_exec_id, actor_analyst_team_scope,
  actor_lead_team_id, bulk_scope, require_lead_data_access, not_found, verdict, asked,
  scoped_lead_access, require_lead_access,
}

-- Whether a bulk statement of the actor reaches the lead.
abbrev pub bulk_reaches : (String → String) → AuthUser → String → Db → Bool
bulk_reaches fold_key a lead_id d =
    any (λ l. l.id == trim_space lead_id && in_scope fold_key (bulk_scope a) d.users l) d.leads

any-cong :
    (p q : LeadRow → Bool) (ls : List LeadRow) → ((l : LeadRow) → p l ≡ q l) → any p ls ≡ any q ls
any-cong p q [] h = refl
any-cong p q (l ∷ ls) h = ground (arith, h l, any-cong p q ls h)

verdict_answer : (b : Bool) (c : Conn) → verdict (ok b, c) ≡ (if b then granted else not_found)
verdict_answer true c = refl
verdict_answer false c = refl

asked_answer :
    (lead_id actor_id : String) (test : Db → Bool) (c : Conn)
    → c.replies ≡ []
    → (trim_space lead_id == "") ≡ false
    → (trim_space actor_id == "") ≡ false
    → verdict (asked lead_id actor_id test c) ≡ (if test c.db then granted else not_found)
unfolding query
asked_answer lead_id actor_id test c r l a = rw (l, a, r) (verdict_answer (test c.db) _)

narrows_blank : (column : Option String) → narrows "" column ≡ true
unfolding trim_space
narrows_blank column = refl

analyst_blank :
    (fold_key : String → String) (team : String) (users : List UserRow) (l : LeadRow)
    → in_analyst_scope fold_key "" team users l ≡ true
unfolding in_analyst_scope trim_space
analyst_blank fold_key team users l = refl

narrows_trimmed :
    (s : String) (column : Option String)
    → (trim_space s == "") ≡ false
    → narrows (trim_space s) column ≡ is_some_id (trim_space s) column
narrows_trimmed s column n = rw (trim_space_idem s, n) refl

trim_space_blank : trim_space "" ≡ ""
unfolding trim_space
trim_space_blank = refl

trimmed_idem : (o : Option String) → trim_space (trimmed o) ≡ trimmed o
trimmed_idem none = trim_space_blank
trimmed_idem (some s) = trim_space_idem s

trimmed_trim :
    (o : Option String) → (trimmed o == "") ≡ false → (trim_space (trimmed o) == "") ≡ false
trimmed_trim o n = rw (trimmed_idem o) n

and_true : (b : Bool) → (b && true) ≡ b
and_true true = refl
and_true false = refl

and_two : (b : Bool) → b ≡ (b && true && true)
and_two true = refl
and_two false = refl

and_three : (b : Bool) → b ≡ (b && true && true && true)
and_three true = refl
and_three false = refl

-- The EXISTS query for one column is the bulk condition when both ids are given.
exists_reaches :
    (lead_id actor_id : String) (p q : LeadRow → Bool) (d : Db)
    → (trim_space lead_id == "") ≡ false
    → (actor_id == "") ≡ false
    → ((l : LeadRow) → p l ≡ q l)
    → lead_exists (trim_space lead_id) actor_id p d
      ≡ any (λ l. l.id == trim_space lead_id && q l) d.leads
exists_reaches lead_id actor_id p q d l a h =
    rw (l, a) (any-cong _ _ d.leads (λ r. ap (λ b. r.id == trim_space lead_id && b) (h r)))

answered_by :
    (lead_id actor_id : String) (test : Db → Bool) (reaches : Bool) (c : Conn)
    → c.replies ≡ []
    → (trim_space lead_id == "") ≡ false
    → (trim_space actor_id == "") ≡ false
    → test c.db ≡ reaches
    → verdict (asked lead_id actor_id test c) ≡ (if reaches then granted else not_found)
answered_by lead_id actor_id test reaches c r l a e =
    asked_answer lead_id actor_id test c r l a ∙ ap (λ b. if b then granted else not_found) e

trimmed_twice :
    (s : String) → (trim_space s == "") ≡ false → (trim_space (trim_space s) == "") ≡ false
trimmed_twice s n = rw (trim_space_idem s) n

module _ (fold_key : String → String) (a : AuthUser) (lead_id : String) (c : Conn)
    (r : c.replies ≡ []) (l : (trim_space lead_id == "") ≡ false)
    (n : (trim_space a.id == "") ≡ false) where
  abbrev Agrees : String → Type 0
  Agrees role =
      (role == role_superadmin) ≡ false
      → can_view_lead_data role ≡ true
      → (is_main_team_lead role && lead_team_scope_id role a.team_id == "") ≡ false
      → require_lead_access fold_key (some (record a { role = role })) lead_id c ≡ (
          if bulk_reaches fold_key (record a { role = role }) lead_id c.db
          then granted
          else not_found)

  analyst : Agrees role_lead_analyst
  unfolding require_lead_access scoped_lead_access require_lead_data_access can_view_lead_data
      is_valid_role in_scope in_analyst_scope bulk_scope is_created_by lead_data_owner_id
      lead_sales_exec_scope_id lead_team_scope_id lead_analyst_team_lead_id actor_analyst_team_scope
      actor_lead_owner_id is_lead_analyst is_main_team_lead is_sales_executive is_analyst_team_lead
      is_assigned_to_sales_exec is_on_team is_created_by_analyst_team actor_lead_sales_exec_id
      actor_lead_team_id deref_team_name
  analyst s v t = rw n (
      answered_by lead_id (trim_space a.id) (is_created_by lead_id (trim_space a.id)) _ c r l
        (trimmed_twice a.id n)
        (exists_reaches lead_id (trim_space (trim_space a.id)) _ _ c.db l (trimmed_twice a.id n)
          (λ row. rw (trim_space_blank, trim_space_idem a.id, n) (and_three _))))

  executive : Agrees role_sales_executive
  unfolding require_lead_access scoped_lead_access require_lead_data_access can_view_lead_data
      is_valid_role in_scope in_analyst_scope bulk_scope is_created_by lead_data_owner_id
      lead_sales_exec_scope_id lead_team_scope_id lead_analyst_team_lead_id actor_analyst_team_scope
      actor_lead_owner_id is_lead_analyst is_main_team_lead is_sales_executive is_analyst_team_lead
      is_assigned_to_sales_exec is_on_team is_created_by_analyst_team actor_lead_sales_exec_id
      actor_lead_team_id deref_team_name
  executive s v t = rw n (
      answered_by lead_id (trim_space a.id) (is_assigned_to_sales_exec lead_id (trim_space a.id)) _
        c r l (trimmed_twice a.id n)
        (exists_reaches lead_id (trim_space (trim_space a.id)) _ _ c.db l (trimmed_twice a.id n)
          (λ row. rw (trim_space_blank, trim_space_idem a.id, n) (sym (and_true _)))))

  analyst_lead : Agrees role_analyst_team_lead
  unfolding require_lead_access scoped_lead_access require_lead_data_access can_view_lead_data
      is_valid_role in_scope in_analyst_scope bulk_scope is_created_by lead_data_owner_id
      lead_sales_exec_scope_id lead_team_scope_id lead_analyst_team_lead_id actor_analyst_team_scope
      actor_lead_owner_id is_lead_analyst is_main_team_lead is_sales_executive is_analyst_team_lead
      is_assigned_to_sales_exec is_on_team is_created_by_analyst_team actor_lead_sales_exec_id
      actor_lead_team_id deref_team_name
  analyst_lead s v t =
      rw (n, n)
        (answered_by lead_id (trim_space a.id)
          (is_created_by_analyst_team fold_key lead_id (trim_space a.id)
            (trimmed a.analyst_team_name))
          _ c r l (trimmed_twice a.id n)
          (exists_reaches lead_id (trim_space (trim_space a.id)) _ _ c.db l (trimmed_twice a.id n)
            (λ row. rw trim_space_blank refl)))

  main_lead : Agrees role_main_team_lead
  unfolding require_lead_access scoped_lead_access require_lead_data_access can_view_lead_data
      is_valid_role in_scope in_analyst_scope bulk_scope is_created_by lead_data_owner_id
      lead_sales_exec_scope_id lead_team_scope_id lead_analyst_team_lead_id actor_analyst_team_scope
      actor_lead_owner_id is_lead_analyst is_main_team_lead is_sales_executive is_analyst_team_lead
      is_assigned_to_sales_exec is_on_team is_created_by_analyst_team actor_lead_sales_exec_id
      actor_lead_team_id deref_team_name
  main_lead s v t = rw t (
      answered_by lead_id (trimmed a.team_id) (is_on_team lead_id (trimmed a.team_id)) _ c r l
        (trimmed_trim a.team_id t)
        (exists_reaches lead_id (trim_space (trimmed a.team_id)) _ _ c.db l
          (trimmed_trim a.team_id t)
          (λ row. rw (trim_space_blank, trimmed_idem a.team_id, t) (and_two _))))

unknown_role : (role : String) → IsUnknown role → can_view_lead_data role ≡ false
unfolding can_view_lead_data is_valid_role lookup
unknown_role role u =
    rw
      (
        u.superadmin_not, u.analyst_team_lead_not, u.lead_analyst_not, u.main_team_lead_not,
        u.sales_executive_not,
      )
      refl

-- For a known role other than Superadmin, an actor with an id and, if a main team lead, with a team is
-- granted a lead exactly if the scope that the bulk statements carry reaches it, and otherwise told that
-- there is no such lead; the database answers, and the lead's id is not blank.
pub require_lead_access-bulk_scope :
    (fold_key : String → String) (a : AuthUser) (lead_id : String) (c : Conn)
    → c.replies ≡ []
    → (trim_space lead_id == "") ≡ false
    → (trim_space a.id == "") ≡ false
    → (a.role == role_superadmin) ≡ false
    → can_view_lead_data a.role ≡ true
    → (is_main_team_lead a.role && lead_team_scope_id a.role a.team_id == "") ≡ false
    → require_lead_access fold_key (some a) lead_id c
      ≡ (if bulk_reaches fold_key a lead_id c.db then granted else not_found)
require_lead_access-bulk_scope fold_key a lead_id c r l n =
    role_elim (Agrees fold_key a lead_id c r l n) (λ s. absurd (false≢true (sym s)))
      (analyst_lead fold_key a lead_id c r l n) (analyst fold_key a lead_id c r l n)
      (main_lead fold_key a lead_id c r l n) (executive fold_key a lead_id c r l n)
      (λ role u s v. absurd (false≢true (sym (unknown_role role u) ∙ v))) a.role
