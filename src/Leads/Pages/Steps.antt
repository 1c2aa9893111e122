-- ===== src/Leads/Pages/Steps.antt =====
-- leads.go, `List`: one page and its cursor.
use leadflow_v3_server.Base.{
  ℕ, suc, ◌-◌, ◌<◌, ◌≤◌, String, Bool, true, false, not, ◌&&◌, List, [], ◌∷◌, ◌++◌, ◌==◌, ◌≡◌, refl,
  ap, ltb, length, take, All, trim_space, some, eq_refl, arith, if◌then◌else◌, ℤ,
}
use leadflow_v3_server.Base.ℤ.{pos, negsuc}
use leadflow_v3_server.Leads.Conditions.Filters.{normalize_lead_sort, lookup-All, sort_words}
use leadflow_v3_server.Leads.Pages.{
  LeadCursor, RawRow, Texts, page_of, cursor_after, next_cursor, clamp_lead_limit, current_cursor,
  decode_lead_cursor, cursor_condition, no_cursor,
}
use leadflow_v3_server.Leads.Pages.Order.{TextLaws}
use leadflow_v3_server.Leads.Pages.Cuts.{take_whole, take-take, length-take}

pub cursor_words :
    (x : Texts) (raw_sort : String) (row : RawRow)
    → cursor_condition x (normalize_lead_sort x.lower raw_sort) no_cursor row ≡ true
unfolding normalize_lead_sort cursor_condition
cursor_words x raw_sort row =
    lookup-All (λ sort. cursor_condition x sort no_cursor row ≡ true)
      (x.lower (trim_space raw_sort)) "name" sort_words refl
      (
        refl,
        (
          refl,
          (
            refl,
            (
              refl,
              (
                refl,
                (refl, (refl, (refl, (refl, (refl, (refl, (refl, (refl, (refl, (refl, tt)))))))))),
              ),
            ),
          ),
        ),
      )

pub cursor_sort :
    (x : Texts) (raw_sort : String) (row : RawRow)
    → let sort = normalize_lead_sort x.lower raw_sort in (next_cursor x sort row).sort ≡ sort
unfolding normalize_lead_sort next_cursor
cursor_sort x raw_sort row =
    lookup-All (λ sort. (next_cursor x sort row).sort ≡ sort) (x.lower (trim_space raw_sort)) "name"
      sort_words refl
      (
        refl,
        (
          refl,
          (
            refl,
            (
              refl,
              (
                refl,
                (refl, (refl, (refl, (refl, (refl, (refl, (refl, (refl, (refl, (refl, tt)))))))))),
              ),
            ),
          ),
        ),
      )

pub decode-encode :
    (x : Texts) → TextLaws x → (c : LeadCursor) → decode_lead_cursor x (x.encode c) ≡ some c
unfolding decode_lead_cursor
decode-encode x laws c = rw (laws.cursor_written c) (laws.cursor_round c)

pub current-same :
    (x : Texts) (sort : String) (c : LeadCursor) → c.sort ≡ sort → current_cursor x sort c ≡ c
unfolding current_cursor
current-same x sort c e = chosen (not (c.id == "")) (not (c.sort == "")) _ (rw e (eq_refl sort))
  where
    chosen : (a b same : Bool) → same ≡ true → (if a && (b && not same) then no_cursor else c) ≡ c
    chosen a b same h = rw h (none_of a b)
      where
        none_of : (a b : Bool) → (if a && (b && false) then no_cursor else c) ≡ c
        none_of true true = refl
        none_of true false = refl
        none_of false b = refl

pub cursor_after-last :
    (x : Texts) (sort : String) (front : List RawRow) (z : RawRow)
    → cursor_after x sort (front ++ z ∷ []) ≡ x.encode (next_cursor x sort z)
cursor_after-last x sort [] z = refl
cursor_after-last x sort (a ∷ []) z = refl
cursor_after-last x sort (a ∷ b ∷ front) z = cursor_after-last x sort (b ∷ front) z

pub clamp-positive : (limit : ℤ) → clamp_lead_limit limit ≡ suc (clamp_lead_limit limit - 1)
unfolding clamp_lead_limit
clamp-positive (pos n) = ground arith
clamp-positive (negsuc n) = refl

pub clamp-bounds : (limit : ℤ) → (0 < clamp_lead_limit limit) × (clamp_lead_limit limit ≤ 100)
unfolding clamp_lead_limit
clamp-bounds (pos n) = (ground arith, ground arith)
clamp-bounds (negsuc n) = (omega arith, omega arith)

pub All-true :
    (p : RawRow → Bool) (rows : List RawRow)
    → ((row : RawRow) → p row ≡ true)
    → All (λ row. p row ≡ true) rows
All-true p [] h = tt
All-true p (row ∷ rows) h = (h row, All-true p rows h)

pub last_page :
    (x : Texts) (sort : String) (n : ℕ) (ys : List RawRow)
    → length ys ≤ n
    → page_of x sort n (take (suc n) ys) ≡ record { items = ys; next_cursor = ""; has_more = false }
unfolding page_of
last_page x sort n ys h =
    let few : ltb n (length ys) ≡ false = ground arith in
    rw (take_whole (suc n) ys (omega arith)) (rw few refl)

pub full_page :
    (x : Texts) (sort : String) (n : ℕ) (ys : List RawRow)
    → n < length ys
    → page_of x sort n (take (suc n) ys)
      ≡ record { items = take n ys; next_cursor = cursor_after x sort (take n ys); has_more = true }
unfolding page_of
full_page x sort n ys h =
    let many : ltb n (suc n) ≡ true = ground arith in
    rw (length-take (suc n) ys (omega arith)) (rw many (rw (take-take n ys) refl))

pub append_middle :
    (xs : List RawRow) (z : RawRow) (ys : List RawRow) → (xs ++ z ∷ []) ++ ys ≡ xs ++ z ∷ ys
append_middle [] z ys = refl
append_middle (a ∷ xs) z ys = ap (λ r. a ∷ r) (append_middle xs z ys)

pub append_assoc : (xs ys zs : List RawRow) → (xs ++ ys) ++ zs ≡ xs ++ (ys ++ zs)
append_assoc [] ys zs = refl
append_assoc (a ∷ xs) ys zs = ap (λ r. a ∷ r) (append_assoc xs ys zs)
