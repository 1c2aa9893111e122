-- ===== src/Leads/Conditions/Numbered/Searches.antt =====
-- search.go: the clause of a search names exactly its own arguments.
use leadflow_v3_server.Base.{
  ℕ, String, Bool, true, false, List, refl, ltb, leb, length, All, codes, trim_space, if◌then◌else◌,
}
use leadflow_v3_server.Leads.Conditions.Parts.{Condition}
use leadflow_v3_server.Leads.Conditions.Filters.{lookup-All}
use leadflow_v3_server.Leads.Conditions.Search.{
  lead_search, search_case, tag_search, tag_condition, tag_clauses, append_phone_search,
  contact_search, closed_search, document_search,
}
use leadflow_v3_server.Leads.Conditions.Patterns.{digits_only, contains}
use leadflow_v3_server.Leads.Conditions.Words.{canonical_search_field}
use leadflow_v3_server.Leads.Conditions.Numbered.Closed.{IsClosed, AllClosed, if-AllClosed}

condition_if :
    (b : Bool) (x y : Condition) → IsClosed x → IsClosed y → IsClosed (if b then x else y)
condition_if true x y h k = h
condition_if false x y h k = k

phone-IsClosed : (q : List ℕ) → IsClosed (append_phone_search q)
phone-IsClosed q = condition_if (leb 2 (length (digits_only q))) _ _ (refl, refl) (refl, refl)

contact-IsClosed : (q : List ℕ) → IsClosed (contact_search q)
contact-IsClosed q = condition_if (leb 2 (length (digits_only q))) _ _ (refl, refl) (refl, refl)

closed_search-IsClosed : (low : List ℕ) → IsClosed (closed_search low)
closed_search-IsClosed low =
    condition_if (contains low (codes "lost")) _ _ (refl, refl)
      (condition_if (contains low (codes "open")) _ _ (refl, refl)
        (condition_if (contains low (codes "clos")) _ _ (refl, refl) (refl, refl)))

tag-IsClosed : (a b c : Bool) → IsClosed (tag_condition (tag_clauses a b c))
tag-IsClosed true true true = (refl, refl)
tag-IsClosed true true false = (refl, refl)
tag-IsClosed true false true = (refl, refl)
tag-IsClosed true false false = (refl, refl)
tag-IsClosed false true true = (refl, refl)
tag-IsClosed false true false = (refl, refl)
tag-IsClosed false false true = (refl, refl)
tag-IsClosed false false false = (refl, refl)

search_case-IsClosed : (low q : List ℕ) → All (λ e. IsClosed e.1) (search_case low q)
unfolding search_case tag_search
search_case-IsClosed low q = (
  (refl, refl),
  (
    (refl, refl),
    (
      (refl, refl),
      (
        (refl, refl),
        (
          tag-IsClosed _ _ _,
          (
            phone-IsClosed q,
            (
              (refl, refl),
              (
                (refl, refl),
                (
                  (refl, refl),
                  (
                    (refl, refl),
                    (
                      (refl, refl),
                      (
                        (refl, refl),
                        (
                          (refl, refl),
                          (
                            closed_search-IsClosed low,
                            (
                              (refl, refl),
                              (
                                (refl, refl),
                                (
                                  (refl, refl),
                                  (
                                    (refl, refl),
                                    (
                                      (refl, refl),
                                      (
                                        (refl, refl),
                                        (
                                          (refl, refl),
                                          (contact-IsClosed q, ((refl, refl), ((refl, refl), tt))),
                                        ),
                                      ),
                                    ),
                                  ),
                                ),
                              ),
                            ),
                          ),
                        ),
                      ),
                    ),
                  ),
                ),
              ),
            ),
          ),
        ),
      ),
    ),
  ),
)

document-IsClosed : (low q : List ℕ) → IsClosed (document_search low q)
document-IsClosed low q =
    condition_if (leb 4 (length (digits_only q))) _ _ (refl, refl) (refl, refl)

pub lead_search-AllClosed :
    (lower : String → String) (query_text field : String)
    → AllClosed (lead_search lower query_text field)
unfolding lead_search
lead_search-AllClosed lower query_text field =
    let q = codes (trim_space query_text) in
    let low = codes (lower (trim_space query_text)) in
    if-AllClosed (ltb (length q) 2) _ _ tt (
      lookup-All IsClosed (canonical_search_field lower field) (document_search low q)
          (search_case low q) (document-IsClosed low q) (search_case-IsClosed low q),
      tt,
    )
