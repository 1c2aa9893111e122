-- ===== src/Leads/Pages/Nameless.antt =====
-- leads.go, `List`: the order by analyst, where the last lead of a page has no creator.
use leadflow_v3_server.Base.{String, true, false, ◌==◌, ◌≡◌, refl, none, some}
use leadflow_v3_server.Leads.Pages.{RawRow, Texts, cursor_condition, next_cursor, is_before}
use leadflow_v3_server.Leads.Pages.Order.{TextLaws}

module _ (x : Texts) (laws : TextLaws x) where
  -- In the order by analyst, a lead without a creator stands before a lead whose creator's name is not empty,
  -- but the cursor of the first leaves the second out unless its creator's name comes after the dash that is
  -- displayed for a missing name.
  pub nameless-skips :
      (a b : RawRow) (name : String)
      → a.analyst ≡ none
      → b.analyst ≡ some name
      → (a.id == "") ≡ false
      → x.less "" name ≡ true
      → x.less "—" name ≡ false
      → (name == "—") ≡ false
      → (is_before x "analyst" a b ≡ true)
        × (cursor_condition x "analyst" (next_cursor x "analyst" a) b ≡ false)
  unfolding is_before cursor_condition next_cursor
  nameless-skips a b name e f i before dash other = (
    rw e (rw f (rw before refl)),
    rw i (
        rw (laws.time_written a.created_at)
          (rw (laws.time_round a.created_at) (rw e (rw f (rw dash (rw other refl)))))),
  )
