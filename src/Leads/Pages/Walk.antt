-- ===== src/Leads/Pages/Walk.antt =====
-- leads.go, `List`: a client that follows the cursors from the first page.
use leadflow_v3_server.Base.{
  ℕ, ℤ, zero, suc, ◌-◌, ◌<◌, ◌≤◌, String, List, [], ◌∷◌, ◌++◌, ◌≡◌, refl, sym, ap, ◌∙◌, subst, ltb,
  ltb→lt, length, take, keep, All, Bool-cases, inl, inr, Option, none, some, arith, if◌then◌else◌,
}
use leadflow_v3_server.Leads.Conditions.Filters.{normalize_lead_sort}
use leadflow_v3_server.Leads.Pages.{
  RawRow, Texts, Page, page_at, list, page_of, cursor_after, next_cursor, clamp_lead_limit,
  current_cursor, decode_lead_cursor, cursor_condition, is_before,
}
use leadflow_v3_server.Leads.Pages.Order.{TextLaws, IsListed, cursor_condition-next_cursor}
use leadflow_v3_server.Leads.Pages.Strict.{is_before-Strict}
use leadflow_v3_server.Leads.Pages.Cuts.{
  IsOrdered, keep-ext, keep_whole, keep-after, cut, at_middle,
}
use leadflow_v3_server.Leads.Pages.Steps.{
  cursor_words, cursor_sort, decode-encode, current-same, cursor_after-last, clamp-positive,
  clamp-bounds, All-true, last_page, full_page, append_middle, append_assoc,
}

abbrev prepended : List RawRow → Option (List RawRow) → Option (List RawRow)
prepended items none = none
prepended items (some more) = some (items ++ more)

abbrev followed : Option Page → (String → Option (List RawRow)) → Option (List RawRow)
followed none rest = none
followed (some p) rest = if p.has_more then prepended p.items (rest p.next_cursor) else some p.items

module _ (x : Texts) (laws : TextLaws x) (raw_sort : String) (limit : ℤ) (rows : List RawRow) where
  abbrev sorting : String
  sorting = normalize_lead_sort x.lower raw_sort

  abbrev page_size : ℕ
  page_size = clamp_lead_limit limit

  -- A client that has fuel for so many pages.
  unfoldable pub all_pages : ℕ → String → Option (List RawRow)
  all_pages zero cursor = none
  all_pages (suc fuel) cursor = followed (list x rows raw_sort limit cursor) (all_pages fuel)

  -- The cursor stands before these rows.
  abbrev StandsBefore : String → List RawRow → Type 0
  StandsBefore cursor ys =
      list x rows raw_sort limit cursor
      ≡ some (page_of x sorting page_size (take (suc page_size) ys))

  first-StandsBefore : StandsBefore "" rows
  unfolding list decode_lead_cursor current_cursor
  first-StandsBefore =
      ap (λ ys. some (page_of x sorting page_size (take (suc page_size) ys)))
        (keep_whole _ rows (All-true _ rows (cursor_words x raw_sort)))

  next-StandsBefore :
      (front : List RawRow) (z : RawRow) (ys : List RawRow)
      → rows ≡ front ++ z ∷ ys
      → IsOrdered (is_before x sorting) rows
      → All (IsListed x sorting) rows
      → StandsBefore (x.encode (next_cursor x sorting z)) ys
  unfolding list
  next-StandsBefore front z ys e o l =
      let c = next_cursor x sorting z in
      let kept : keep (cursor_condition x sorting c) rows ≡ ys =
        keep-ext _ _ rows (λ row.
          cursor_condition-next_cursor x laws raw_sort z row
            (at_middle _ front z ys (subst (λ r. All (IsListed x sorting) r) e l)))
        ∙ (ap (λ r. keep (is_before x sorting z) r) e
            ∙ keep-after (is_before x sorting) (is_before-Strict x laws raw_sort) front z ys
                (subst (λ r. IsOrdered (is_before x sorting) r) e o)) in
      ap (λ d. page_at x rows sorting page_size d) (decode-encode x laws c)
      ∙ (ap
            (λ cur. some (
              page_of x sorting page_size
                (take (suc page_size) (keep (cursor_condition x sorting cur) rows))))
            (current-same x sorting c (cursor_sort x raw_sort z))
          ∙ ap (λ r. some (page_of x sorting page_size (take (suc page_size) r))) kept)

  all_pages-rest :
      IsOrdered (is_before x sorting) rows
      → All (IsListed x sorting) rows
      → (fuel : ℕ) (cursor : String) (before ys : List RawRow) → rows ≡ before ++ ys
      → StandsBefore cursor ys
      → length ys < fuel
      → all_pages fuel cursor ≡ some ys
  unfolding all_pages
  all_pages-rest o l zero cursor before ys e s h = absurd (omega arith)
  all_pages-rest o l (suc fuel) cursor before ys e s h =
      elim (Bool-cases (ltb page_size (length ys))) [
        | inr few ↦
            ap (λ p. followed p (all_pages fuel))
              (s ∙ ap (λ p. some p) (last_page x sorting page_size ys (ground arith)))
        | inl many ↦
            let c = cut (page_size - 1) ys (omega (arith, ltb→lt _ _ many)) in
            let items : take page_size ys ≡ c.front ++ c.last ∷ [] =
              subst (λ n. take n ys ≡ c.front ++ c.last ∷ []) (sym (clamp-positive limit))
                c.taken in
            let here : rows ≡ (before ++ c.front) ++ c.last ∷ c.rest =
              e
              ∙ (ap (λ r. before ++ r) c.whole
                  ∙ sym (append_assoc before c.front (c.last ∷ c.rest))) in
            let onward : rows ≡ (before ++ (c.front ++ c.last ∷ [])) ++ c.rest =
              e
              ∙ (ap (λ r. before ++ r) (c.whole ∙ sym (append_middle c.front c.last c.rest))
                  ∙ sym (append_assoc before (c.front ++ c.last ∷ []) c.rest)) in
            let later : all_pages fuel (cursor_after x sorting (take page_size ys)) ≡ some c.rest =
              ap (λ t. all_pages fuel (cursor_after x sorting t)) items
              ∙ (ap (λ t. all_pages fuel t) (cursor_after-last x sorting c.front c.last)
                  ∙ all_pages-rest o l fuel _ (before ++ (c.front ++ c.last ∷ [])) c.rest onward
                      (next-StandsBefore (before ++ c.front) c.last c.rest here o l)
                      (omega (arith, c.fewer))) in
            ap (λ p. followed p (all_pages fuel))
              (s ∙ ap (λ p. some p) (full_page x sorting page_size ys (ltb→lt _ _ many)))
            ∙ (ap (λ r. prepended (take page_size ys) r) later
                ∙ ap (λ r. some r)
                    (ap (λ t. t ++ c.rest) items
                      ∙ (append_middle c.front c.last c.rest ∙ sym c.whole)))
      ]

  -- Where the rows are in the order of the list, each has an id, a status and a stage and a name that both
  -- sides put in lower case alike, and, in the order by analyst, a creator, a client that follows the cursors
  -- from the first page gets all of them, once each and in order, in at most one page per row and one more;
  -- the page size stays between 1 and 100, whatever number is asked for.
  pub all_pages-whole :
      IsOrdered (is_before x sorting) rows
      → All (IsListed x sorting) rows
      → (fuel : ℕ) → length rows < fuel
      → (all_pages fuel "" ≡ some rows) × ((0 < page_size) × (page_size ≤ 100))
  all_pages-whole o l fuel h = (all_pages-rest o l fuel "" [] rows refl first-StandsBefore h, size)
    where
      size : (0 < page_size) × (page_size ≤ 100)
      size = clamp-bounds limit
