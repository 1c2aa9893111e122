-- ===== src/Leads/Conditions/Tests.antt =====
-- leads.go, search.go: a list of leads with a search and some facets.
use leadflow_v3_server.Base.{
  ℕ, ◌+◌, String, Bool, true, false, ◌&&◌, ◌||◌, List, [], ◌∷◌, ◌≡◌, refl, eqb, is_nil, codes,
  length, arith, none, Option, if◌then◌else◌,
}
use leadflow_v3_server.Access.{LeadListParams}
use leadflow_v3_server.Leads.Conditions.{build_lead_list_where}
use leadflow_v3_server.Leads.Conditions.Patterns.{escape_ilike, escape_char, anywhere, contains}
use leadflow_v3_server.Leads.Conditions.Literal.{is_special, LikeLaws, like-anywhere-escape_ilike}
use leadflow_v3_server.Leads.Conditions.Numbered.{IsNumbered, build_lead_list_where-IsNumbered}

abbrev literal : ℕ → (List ℕ → Bool) → List ℕ → Bool
literal c tail [] = false
literal c tail (x ∷ s) = eqb c x && tail s

abbrev one : (List ℕ → Bool) → List ℕ → Bool
one tail [] = false
one tail (x ∷ s) = tail s

abbrev many : (List ℕ → Bool) → List ℕ → Bool
many tail [] = tail []
many tail (x ∷ s) = tail (x ∷ s) || many tail s

-- A matcher; the flag tells that a backslash stands before.
unfoldable like_from : Bool → List ℕ → List ℕ → Bool
like_from true [] s = false
like_from true (c ∷ p) s = literal c (like_from false p) s
like_from false [] s = is_nil s
like_from false (c ∷ p) s =
    if eqb c b'\\'
    then like_from true p s
    else if eqb c b'%'
    then many (like_from false p) s
    else if eqb c b'_'
    then one (like_from false p) s
    else literal c (like_from false p) s

like_from-plain :
    (c : ℕ) (p s : List ℕ)
    → is_special c ≡ false
    → like_from false (c ∷ p) s ≡ literal c (like_from false p) s
unfolding like_from
like_from-plain c p s h =
    let e = none_of (eqb c b'\\') (eqb c b'%') (eqb c b'_') h in rw e.0 (rw e.1.0 (rw e.1.1 refl))
  where
    none_of : (x y z : Bool) → (x || (y || z)) ≡ false → (x ≡ false) × ((y ≡ false) × (z ≡ false))
    none_of x y z q = (ground arith, (ground arith, ground arith))

like_from-LikeLaws : LikeLaws (like_from false)
unfolding like_from
like_from-LikeLaws = record {
  at_end = λ s. refl;
  any_end = λ p. refl;
  any_next = λ p x s. refl;
  escaped_end = λ c p. refl;
  escaped_next = λ c p x s. refl;
  plain_end = λ c p h. like_from-plain c p [] h;
  plain_next = λ c p x s h. like_from-plain c p (x ∷ s) h;
}

abbrev percent : List ℕ
percent = codes "5%_"

like-anywhere-escape_ilike_example :
    like_from false (anywhere (escape_ilike percent)) (codes "a 5%_ b")
    ≡ contains (codes "a 5%_ b") percent
like-anywhere-escape_ilike_example =
    like-anywhere-escape_ilike (like_from false) like_from-LikeLaws percent (codes "a 5%_ b")

escaped : escape_ilike percent ≡ codes "5\\%\\_"
unfolding escape_ilike escape_char
escaped = refl

abbrev wanted : LeadListParams
wanted = record {
  filter = "new";
  sort = "newest";
  query_text = "98 51";
  field = "phone";
  cursor = "";
  limit = 20;
  country = "Nepal";
  city = "none";
  team_id = "t1";
  analyst_id = "";
  sales_exec_id = "unassigned";
  manager_id = "m1";
  analyst_team_lead_id = "a1";
  analyst_team_name = "North";
  source = "";
  portal = "";
  meta_profile = "";
  status = "";
  stage = "closed_won";
  service_line = "cdr";
  qualification_reason = "";
  added_from = "";
  added_to = "";
}

abbrev same_text : String → String
same_text s = s

abbrev no_day : List ℕ → Option (ℕ × ℕ)
no_day cs = none

abbrev day_after : ℕ → ℕ
day_after n = n + 86400

build_lead_list_where-IsNumbered_example :
    IsNumbered 2
      (2 + length (build_lead_list_where same_text same_text no_day day_after wanted 2).args)
      (build_lead_list_where same_text same_text no_day day_after wanted 2).conditions
build_lead_list_where-IsNumbered_example =
    build_lead_list_where-IsNumbered same_text same_text no_day day_after wanted 2
