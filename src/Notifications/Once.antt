-- ===== src/Notifications/Once.antt =====
-- notifications.go, `NotifyStaff`: who is notified, and how often.
use leadflow_v3_server.Base.{
  ◌≤◌, String, Bool, true, false, not, ◌&&◌, ◌||◌, List, [], ◌∷◌, ◌++◌, ◌==◌, ◌≡◌, refl, ap, ◌∙◌,
  any, keep, map, length, joined, All, trim_space, trim_space_idem, trim_left, trim_right, Option,
  arith,
}
use leadflow_v3_server.Db.{UserRow}
use leadflow_v3_server.Notifications.{
  is_staff, by_age, staff_recipient_ids, merge_recipient_ids, merge_loop, without_actor,
  create_many, notify_staff,
}
use leadflow_v3_server.Notifications.Recipients.{
  hits, is_named, unless, eq_false_sym, merge_loop-Merged, hits-without_actor, staff_loop-any,
  by_age-any, map-any, keep-any,
}
use leadflow_v3_server.Notifications.Batches.{
  IsTrimmed, recipients, merge_loop-IsTrimmed, keep-IsTrimmed, batches-recipients, batches-IsSmall,
}

-- A member of the staff, or one of the further recipients.
abbrev pub is_wanted : List UserRow → List String → String → Bool
is_wanted users extra id = any (λ u. is_staff u && trim_space u.id == id) users || is_named id extra

any-append : (p : String → Bool) (xs ys : List String) → any p (xs ++ ys) ≡ (any p xs || any p ys)
any-append p [] ys = refl
any-append p (x ∷ xs) ys = ground (arith, any-append p xs ys)

staff_recipient_ids-named :
    (users : List UserRow) (exclude_id id : String)
    → (id == "") ≡ false
    → (id == trim_space exclude_id) ≡ false
    → is_named id (staff_recipient_ids users exclude_id)
      ≡ any (λ u. is_staff u && trim_space u.id == id) users
unfolding staff_recipient_ids trim_space trim_left trim_right
staff_recipient_ids-named users exclude_id id h k =
    let p : String → Bool = λ y. trim_space y == id in
    let excluded : p (trim_space exclude_id) ≡ false =
      ap (λ t. t == id) (trim_space_idem exclude_id) ∙ eq_false_sym id (trim_space exclude_id) k in
    or_false _ _ (
      staff_loop-any p (trim_space exclude_id) [] (map (λ u. u.id) (by_age (keep is_staff users)))
        (eq_false_sym id "" h) excluded)
    ∙ (map-any p (by_age (keep is_staff users))
        ∙ (by_age-any (λ u. p u.id) (keep is_staff users) ∙ keep-any is_staff (λ u. p u.id) users))
  where
    or_false : (a b : Bool) → (a || false) ≡ (b || false) → a ≡ b
    or_false a b e = ground arith

create_many-recipients :
    (ids : List String) (kind title body : String) (lead_id : Option String)
    → (trim_space kind == "") ≡ false
    → (trim_space title == "") ≡ false
    → All IsTrimmed ids
    → (recipients (joined (create_many ids kind title body lead_id)) ≡ ids)
      × All (λ rows. length rows ≤ 100) (create_many ids kind title body lead_id)
unfolding create_many
create_many-recipients ids kind title body lead_id h k a = rw h (
    rw k (
      batches-recipients _ (λ id. refl) (length ids) ids (omega arith) a,
      batches-IsSmall _ (λ id. refl) (length ids) ids,
    ))

-- A notification with a kind and a title is sent in statements of at most a hundred rows, which hold exactly one
-- row for the trimmed id of each member of the staff and each further recipient, unless it is blank or the
-- actor's, and none for any other id.
pub notify_staff-once :
    (users : List UserRow) (actor_id kind title body : String) (lead_id : Option String)
    (extra : List String)
    → (trim_space kind == "") ≡ false
    → (trim_space title == "") ≡ false
    → ((id : String)
        → hits id (recipients (joined (notify_staff users actor_id kind title body lead_id extra)))
          ≡ unless (id == "" || (id == trim_space actor_id || not (is_wanted users extra id))) 1)
      × All (λ rows. length rows ≤ 100) (notify_staff users actor_id kind title body lead_id extra)
unfolding notify_staff merge_recipient_ids
notify_staff-once users actor_id kind title body lead_id extra h k = (once, sent.1)
  where
    staff : List String
    staff = staff_recipient_ids users actor_id

    ids : List String
    ids = without_actor actor_id (merge_loop [] (staff ++ extra))

    sent :
        (recipients (joined (create_many ids kind title body lead_id)) ≡ ids)
        × All (λ rows. length rows ≤ 100) (create_many ids kind title body lead_id)
    sent =
        create_many-recipients ids kind title body lead_id h k
          (keep-IsTrimmed _ _ (merge_loop-IsTrimmed [] (staff ++ extra)))

    chosen :
        (id : String) (blank actor : Bool)
        → (id == "") ≡ blank
        → (id == trim_space actor_id) ≡ actor
        → unless actor (unless (blank || not (is_named id (staff ++ extra))) 1)
          ≡ unless (blank || (actor || not (is_wanted users extra id))) 1
    chosen id true true e f = refl
    chosen id true false e f = refl
    chosen id false true e f = refl
    chosen id false false e f =
        ap (λ b. unless (not b) 1)
          (any-append _ staff extra
            ∙ ap (λ b. b || is_named id extra) (staff_recipient_ids-named users actor_id id e f))

    once :
        (id : String)
        → hits id (recipients (joined (create_many ids kind title body lead_id)))
          ≡ unless (id == "" || (id == trim_space actor_id || not (is_wanted users extra id))) 1
    once id =
        ap (λ xs. hits id xs) sent.0
        ∙ (hits-without_actor id actor_id (merge_loop [] (staff ++ extra))
            ∙ (ap (λ n. unless (id == trim_space actor_id) n)
                  (merge_loop-Merged id [] (staff ++ extra))
                ∙ chosen id (id == "") (id == trim_space actor_id) refl refl))
