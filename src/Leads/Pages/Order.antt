-- ===== src/Leads/Pages/Order.antt =====
-- leads.go, `List`: the condition that a cursor adds selects the rows that stand after the cursor's row.
use leadflow_v3_server.Base.{
  ℕ, String, Bool, true, false, ◌==◌, ◌≡◌, refl, ◌∙◌, trim_space, Option, none, some, if◌then◌else◌,
}
use leadflow_v3_server.Base.{ℤ}
use leadflow_v3_server.Leads.Conditions.Filters.{normalize_lead_sort, lookup-All, sort_words}
use leadflow_v3_server.Leads.Pages.{
  LeadCursor, RawRow, Texts, with_time, newer, by_deal, past_deal, is_before, cursor_condition,
  next_cursor, deal_text,
}

-- What is relied on: the order of texts is strict, and what is written as a text is read back.
pub record TextLaws (x : Texts) : Type 0 where
  pub less_asym : (s t : String) → x.less s t ≡ true → x.less t s ≡ false
  pub time_round : (t : ℕ) → x.parse_time (x.format_time t) ≡ some t
  pub time_written : (t : ℕ) → (x.format_time t == "") ≡ false
  pub deal_round : (d : ℤ) → x.parse_deal (x.format_deal d) ≡ some d
  pub deal_written : (d : ℤ) → (x.format_deal d == "") ≡ false
  pub cursor_round : (c : LeadCursor) → x.decode (x.encode c) ≡ some c
  pub cursor_written : (c : LeadCursor) → (trim_space (x.encode c) == "") ≡ false

-- A row that has an id, a status and a stage, a name that both sides put in lower case alike, and the
-- creator's name where the list is ordered by it.
pub record IsListed (x : Texts) (sort : String) (row : RawRow) : Type 0 where
  pub has_id : (row.id == "") ≡ false
  pub has_status : (row.status == "") ≡ false
  pub has_stage : (row.stage == "") ≡ false
  pub same_lower : x.lower row.lead_name ≡ x.lower_sql row.lead_name
  pub has_analyst : sort ≡ "analyst" → (name : String) × (row.analyst ≡ some name)

module _ (x : Texts) (laws : TextLaws x) where
  with_time-fresh :
      (cur : LeadCursor) (f : ℕ → Bool) (t : ℕ)
      → (cur.id == "") ≡ false
      → cur.t ≡ x.format_time t
      → with_time x cur f ≡ f t
  with_time-fresh cur f t h e = rw h (rw e (rw (laws.time_written t) (rw (laws.time_round t) refl)))

  abbrev Selects : RawRow → RawRow → String → Type 0
  Selects a b sort =
      IsListed x sort a → cursor_condition x sort (next_cursor x sort a) b ≡ is_before x sort a b

  Selects-name : (a b : RawRow) → Selects a b "name"
  unfolding cursor_condition next_cursor is_before
  Selects-name a b h = rw h.has_id (rw h.same_lower refl)

  Selects-newest : (a b : RawRow) → Selects a b "newest"
  unfolding cursor_condition next_cursor is_before
  Selects-newest a b h = with_time-fresh (next_cursor x "newest" a) _ a.created_at h.has_id refl

  Selects-oldest : (a b : RawRow) → Selects a b "oldest"
  unfolding cursor_condition next_cursor is_before
  Selects-oldest a b h = with_time-fresh (next_cursor x "oldest" a) _ a.created_at h.has_id refl

  Selects-recent : (a b : RawRow) → Selects a b "recent"
  unfolding cursor_condition next_cursor is_before
  Selects-recent a b h = with_time-fresh (next_cursor x "recent" a) _ a.updated_at h.has_id refl

  Selects-status : (a b : RawRow) → Selects a b "status"
  unfolding cursor_condition next_cursor is_before
  Selects-status a b h =
      rw h.has_status (with_time-fresh (next_cursor x "status" a) _ a.created_at h.has_id refl)

  Selects-stage : (a b : RawRow) → Selects a b "stage"
  unfolding cursor_condition next_cursor is_before
  Selects-stage a b h =
      rw h.has_stage (with_time-fresh (next_cursor x "stage" a) _ a.created_at h.has_id refl)

  past_deal-cursor :
      (a b : Option ℤ) (e : Bool)
      → past_deal x (if deal_text x a == "" then none else x.parse_deal (deal_text x a)) b e
        ≡ by_deal x a b e
  past_deal-cursor none none e = refl
  past_deal-cursor none (some d) e = refl
  past_deal-cursor (some c) none e = rw (laws.deal_written c) (rw (laws.deal_round c) refl)
  past_deal-cursor (some c) (some d) e = rw (laws.deal_written c) (rw (laws.deal_round c) refl)

  Selects-value : (a b : RawRow) → Selects a b "value"
  unfolding cursor_condition next_cursor is_before
  Selects-value a b h =
      with_time-fresh (next_cursor x "value" a) _ a.created_at h.has_id refl
      ∙ past_deal-cursor a.deal b.deal (newer x a b)

  Selects-analyst : (a b : RawRow) → Selects a b "analyst"
  unfolding cursor_condition next_cursor is_before
  Selects-analyst a b h =
      let n = h.has_analyst refl in
      with_time-fresh (next_cursor x "analyst" a) _ a.created_at h.has_id refl ∙ rw n.1 refl

  -- For each order of the list, the condition that the cursor of a row adds selects exactly the rows that the
  -- ORDER BY clause puts after that row, where the row has an id, a status and a stage and a name that both
  -- sides put in lower case alike, and, in the order by analyst, a creator.
  pub cursor_condition-next_cursor :
      (raw_sort : String) (a b : RawRow)
      → let sort = normalize_lead_sort x.lower raw_sort in
        IsListed x sort a → cursor_condition x sort (next_cursor x sort a) b ≡ is_before x sort a b
  unfolding normalize_lead_sort
  cursor_condition-next_cursor raw_sort a b =
      lookup-All (Selects a b) (x.lower (trim_space raw_sort)) "name" sort_words (Selects-name a b)
        (
          Selects-name a b,
          (
            Selects-name a b,
            (
              Selects-name a b,
              (
                Selects-name a b,
                (
                  Selects-name a b,
                  (
                    Selects-newest a b,
                    (
                      Selects-oldest a b,
                      (
                        Selects-recent a b,
                        (
                          Selects-recent a b,
                          (
                            Selects-recent a b,
                            (
                              Selects-recent a b,
                              (
                                Selects-status a b,
                                (Selects-stage a b, (Selects-value a b, (Selects-analyst a b, tt))),
                              ),
                            ),
                          ),
                        ),
                      ),
                    ),
                  ),
                ),
              ),
            ),
          ),
        )
