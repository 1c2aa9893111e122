-- ===== src/Leads/Pages.antt =====
-- leads.go, `List` with its cursor: the order of a list of leads, the condition that a cursor adds to it,
-- and the pages. What a row displays is left out.
pub mod Order
pub mod Strict
pub mod Cuts
pub mod Steps
pub mod Walk
mod Samples
pub mod Nameless
pub mod Tests
use leadflow_v3_server.Base.{
  ℕ, suc, String, Bool, true, false, not, ◌&&◌, ◌||◌, List, [], ◌∷◌, ◌++◌, ◌==◌, length, take, keep,
  ltb, eqb, trim_space, Option, none, some, if◌then◌else◌,
}
use leadflow_v3_server.Base.{ℤ, ltb_ℤ, eqb_ℤ}
use leadflow_v3_server.Base.ℤ.{pos, negsuc}
use leadflow_v3_server.Leads.Conditions.Filters.{or_default, normalize_lead_sort}

pub record LeadCursor : Type 0 where
  pub sort : String
  pub t : String
  pub id : String
  pub n : String
  pub v : String
  pub k : String

-- The columns of a row of the list that its order reads. `analyst` is the name of the creator, if there is one.
pub record RawRow : Type 0 where
  pub id : String
  pub lead_name : String
  pub status : String
  pub stage : String
  pub deal : Option ℤ
  pub created_at : ℕ
  pub updated_at : ℕ
  pub analyst : Option String

-- strings.ToLower and LOWER, the order of texts in the database, time.Format and time.Parse,
-- strconv.FormatFloat and strconv.ParseFloat, and the cursor as JSON in base 64.
pub record Texts : Type 0 where
  pub lower : String → String
  pub lower_sql : String → String
  pub less : String → String → Bool
  pub format_time : ℕ → String
  pub parse_time : String → Option ℕ
  pub format_deal : ℤ → String
  pub parse_deal : String → Option ℤ
  pub encode : LeadCursor → String
  pub decode : String → Option LeadCursor

abbrev pub no_cursor : LeadCursor
no_cursor = record { sort = ""; t = ""; id = ""; n = ""; v = ""; k = "" }

unfoldable pub clamp_lead_limit : ℤ → ℕ
clamp_lead_limit (negsuc n) = 40
clamp_lead_limit (pos n) = if eqb n 0 then 40 else if ltb 100 n then 100 else n

pub record Page : Type 0 where
  pub items : List RawRow
  pub next_cursor : String
  pub has_more : Bool

abbrev pub at_time : (ℕ → Bool) → Option ℕ → Bool
at_time f none = true
at_time f (some t) = f t

module _ (x : Texts) where
  unfoldable pub decode_lead_cursor : String → Option LeadCursor
  unfolding trim_space
  decode_lead_cursor s = if trim_space s == "" then some no_cursor else x.decode s

  -- `ORDER BY "createdAt" DESC, id DESC`
  abbrev pub newer : RawRow → RawRow → Bool
  newer a b = ltb b.created_at a.created_at || (eqb b.created_at a.created_at && x.less b.id a.id)

  -- `ORDER BY key ASC, "createdAt" DESC, id DESC`
  abbrev pub by_key : (RawRow → String) → RawRow → RawRow → Bool
  by_key key a b = x.less (key a) (key b) || (key b == key a && newer a b)

  -- `"estimatedDealValue" DESC NULLS LAST, "createdAt" DESC, id DESC`
  abbrev pub by_deal : Option ℤ → Option ℤ → Bool → Bool
  by_deal none none rest = rest
  by_deal none (some b) rest = false
  by_deal (some a) none rest = true
  by_deal (some a) (some b) rest = ltb_ℤ b a || (eqb_ℤ b a && rest)

  abbrev pub analyst_key : RawRow → String
  analyst_key row = or_default "" row.analyst

  -- The ORDER BY clause: `a` stands before `b`.
  unfoldable pub is_before : String → RawRow → RawRow → Bool
  is_before sort a b =
      if sort == "name"
      then x.less (x.lower_sql a.lead_name) (x.lower_sql b.lead_name)
        || (x.lower_sql b.lead_name == x.lower_sql a.lead_name && x.less a.id b.id)
      else if sort == "oldest"
      then ltb a.created_at b.created_at || (eqb b.created_at a.created_at && x.less a.id b.id)
      else if sort == "recent"
      then ltb b.updated_at a.updated_at || (eqb b.updated_at a.updated_at && x.less b.id a.id)
      else if sort == "status"
      then by_key (λ row. row.status) a b
      else if sort == "stage"
      then by_key (λ row. row.stage) a b
      else if sort == "value"
      then by_deal a.deal b.deal (newer a b)
      else if sort == "analyst"
      then by_key analyst_key a b
      else newer a b

  -- The time of a cursor, where the cursor has one that is read; otherwise there is no condition.
  abbrev pub with_time : LeadCursor → (ℕ → Bool) → Bool
  with_time cur f = if cur.id == "" || cur.t == "" then true else at_time f (x.parse_time cur.t)

  -- `(l."createdAt", l.id) < ($t, $id)`
  abbrev pub is_earlier : LeadCursor → RawRow → ℕ → Bool
  is_earlier cur row t = ltb row.created_at t || (eqb row.created_at t && x.less row.id cur.id)

  abbrev pub past_key : String → String → Bool → Bool
  past_key key of_row earlier = x.less key of_row || (of_row == key && earlier)

  abbrev pub cursor_deal : LeadCursor → Option ℤ
  cursor_deal cur = if cur.v == "" then none else x.parse_deal cur.v

  -- The SQL of `value`: the cursor's value, then the row's.
  abbrev pub past_deal : Option ℤ → Option ℤ → Bool → Bool
  past_deal none none earlier = earlier
  past_deal none (some d) earlier = false
  past_deal (some c) none earlier = true
  past_deal (some c) (some d) earlier = ltb_ℤ d c || (eqb_ℤ d c && earlier)

  -- `cursorSQL` on a row.
  unfoldable pub cursor_condition : String → LeadCursor → RawRow → Bool
  cursor_condition sort cur row =
      if sort == "name"
      then (if cur.id == ""
          then true
          else x.less (x.lower cur.n) (x.lower_sql row.lead_name)
            || (x.lower_sql row.lead_name == x.lower cur.n && x.less cur.id row.id))
      else if sort == "oldest"
      then with_time cur
          (λ t. ltb t row.created_at || (eqb row.created_at t && x.less cur.id row.id))
      else if sort == "recent"
      then with_time cur
          (λ t. ltb row.updated_at t || (eqb row.updated_at t && x.less row.id cur.id))
      else if sort == "status"
      then (if cur.k == ""
          then true
          else with_time cur (λ t. past_key cur.k row.status (is_earlier cur row t)))
      else if sort == "stage"
      then (if cur.k == ""
          then true
          else with_time cur (λ t. past_key cur.k row.stage (is_earlier cur row t)))
      else if sort == "value"
      then with_time cur (λ t. past_deal (cursor_deal cur) row.deal (is_earlier cur row t))
      else if sort == "analyst"
      then with_time cur (λ t. past_key cur.n (analyst_key row) (is_earlier cur row t))
      else with_time cur (is_earlier cur row)

  -- A cursor of another order is ignored.
  unfoldable pub current_cursor : String → LeadCursor → LeadCursor
  current_cursor sort cur =
      if not (cur.id == "") && (not (cur.sort == "") && not (cur.sort == sort))
      then no_cursor
      else cur

  abbrev pub deal_text : Option ℤ → String
  deal_text none = ""
  deal_text (some d) = x.format_deal d

  unfoldable pub next_cursor : String → RawRow → LeadCursor
  next_cursor sort last =
      let c : LeadCursor = record {
        sort = sort;
        t = x.format_time last.created_at;
        id = last.id;
        n = "";
        v = "";
        k = "";
      } in
      if sort == "name"
      then record c { n = last.lead_name }
      else if sort == "recent"
      then record c { t = x.format_time last.updated_at }
      else if sort == "status"
      then record c { k = last.status }
      else if sort == "stage"
      then record c { k = last.stage }
      else if sort == "value"
      then record c { v = deal_text last.deal }
      else if sort == "analyst"
      then record c { n = or_default "—" last.analyst }
      else c

  -- `nextCursor`, of the last row of the page.
  abbrev pub cursor_after : String → List RawRow → String
  cursor_after sort [] = ""
  cursor_after sort (r ∷ []) = x.encode (next_cursor sort r)
  cursor_after sort (r ∷ s ∷ rest) = cursor_after sort (s ∷ rest)

  unfoldable pub page_of : String → ℕ → List RawRow → Page
  unfolding next_cursor
  page_of sort limit raws =
      let has_more = ltb limit (length raws) in
      let items = if has_more then take limit raws else raws in
      record {
        items = items;
        next_cursor = if has_more then cursor_after sort items else "";
        has_more = has_more;
      }

  -- `rows` are the leads that the filters select, in the order of the ORDER BY clause.
  abbrev pub page_at : List RawRow → String → ℕ → Option LeadCursor → Option Page
  page_at rows sort limit none = none
  page_at rows sort limit (some cur) = some (
      page_of sort limit
        (take (suc limit) (keep (cursor_condition sort (current_cursor sort cur)) rows)))

  unfoldable pub list : List RawRow → String → ℤ → String → Option Page
  unfolding decode_lead_cursor current_cursor cursor_condition page_of clamp_lead_limit
      normalize_lead_sort
  list rows raw_sort limit cursor =
      page_at rows (normalize_lead_sort x.lower raw_sort) (clamp_lead_limit limit)
        (decode_lead_cursor cursor)
