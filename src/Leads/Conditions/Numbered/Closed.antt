-- ===== src/Leads/Conditions/Numbered/Closed.antt =====
-- leads.go, search.go: each appended clause names exactly the arguments that are appended with it.
use leadflow_v3_server.Base.{
  joined, ℕ, zero, suc, String, Bool, true, false, ◌&&◌, List, [], ◌∷◌, ◌==◌, ◌≡◌, refl, any, all,
  eqb, ltb, length, All, All-append, if◌then◌else◌,
}
use leadflow_v3_server.Leads.Conditions.Parts.{Piece, text, arg, Condition}
use leadflow_v3_server.Leads.Conditions.Filters.{
  lead_filters, lead_filter, normalize_lead_filter, lookup-All,
}

abbrev pub is_arg : ℕ → Piece → Bool
is_arg j (text s) = false
is_arg j (arg k) = eqb j k

abbrev pub fits : ℕ → Piece → Bool
fits m (text s) = true
fits m (arg k) = ltb k m

-- Each of the last `m` arguments is named.
abbrev pub covers : ℕ → List Piece → Bool
covers zero ps = true
covers (suc m) ps = any (is_arg m) ps && covers m ps

abbrev pub IsClosed : Condition → Type 0
IsClosed c = (all (fits (length c.args)) c.clause ≡ true) × (covers (length c.args) c.clause ≡ true)

abbrev pub AllClosed : List Condition → Type 0
AllClosed cs = All IsClosed cs

pub if-AllClosed :
    (b : Bool) (xs ys : List Condition)
    → AllClosed xs
    → AllClosed ys
    → AllClosed (if b then xs else ys)
if-AllClosed true xs ys h k = h
if-AllClosed false xs ys h k = k

pub joined-AllClosed :
    (groups : List (List Condition)) → All AllClosed groups → AllClosed (joined groups)
joined-AllClosed [] a = tt
joined-AllClosed (xs ∷ rest) a =
    All-append IsClosed xs (joined rest) a.0 (joined-AllClosed rest a.1)

lead_filter-AllClosed : (filter : String) → AllClosed (lead_filter filter)
unfolding lead_filter
lead_filter-AllClosed filter = lookup-All AllClosed filter [] lead_filters tt (
  ((refl, refl), tt),
  (
    ((refl, refl), tt),
    (
      ((refl, refl), tt),
      (
        ((refl, refl), tt),
        (
          ((refl, refl), tt),
          (
            ((refl, refl), tt),
            (
              ((refl, refl), tt),
              (
                ((refl, refl), tt),
                (
                  ((refl, refl), tt),
                  (
                    ((refl, refl), tt),
                    (
                      ((refl, refl), ((refl, refl), tt)),
                      (
                        ((refl, refl), tt),
                        (
                          ((refl, refl), tt),
                          (
                            ((refl, refl), tt),
                            (
                              ((refl, refl), tt),
                              (
                                ((refl, refl), tt),
                                (
                                  ((refl, refl), tt),
                                  (
                                    ((refl, refl), ((refl, refl), tt)),
                                    (
                                      ((refl, refl), ((refl, refl), tt)),
                                      (
                                        ((refl, refl), ((refl, refl), tt)),
                                        (((refl, refl), ((refl, refl), tt)), tt),
                                      ),
                                    ),
                                  ),
                                ),
                              ),
                            ),
                          ),
                        ),
                      ),
                    ),
                  ),
                ),
              ),
            ),
          ),
        ),
      ),
    ),
  ),
)

pub preset_conditions-AllClosed :
    (lower : String → String) (filter status : String)
    → AllClosed (if status == "" then lead_filter (normalize_lead_filter lower filter) else [])
preset_conditions-AllClosed lower filter status =
    if-AllClosed (status == "") _ _ (lead_filter-AllClosed (normalize_lead_filter lower filter)) tt
