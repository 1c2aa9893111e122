-- ===== src/Hub/Dropping.antt =====
-- realtime.go, `DropUser` and `DropUserExcept`: which connections they close, and what the closed
-- connections' own handlers then see.
use leadflow_v3_server.Base.{
  Bool, not, ◌&&◌, ◌||◌, String, none, some, true, false, List, [], ◌∷◌, ◌==◌, ◌≡◌, refl, ◌∙◌, inl,
  inr, any, lookup, delete, trim_space, if◌then◌else◌, arith, Option-cases, eq_iff, eq_refl,
}
use leadflow_v3_server.Hub.{
  Client, Hub, no_info, has_user, remove, is_dropped, dropped_ids, remove_all, drop_user_except,
  drop_user,
}
use leadflow_v3_server.Hub.Presence.{IsKeyed, delete_absent}

remove_map : (id : String) (h : Hub) → (remove id h).0 ≡ delete id h
unfolding remove
remove_map id h = elim (Option-cases (lookup id h)) [
  | inl e ↦ rw (e, delete_absent id h e) refl
  | inr (c, e) ↦ rw e refl
]

remove_all-skip :
    (ids : List String) (id : String) (c : Client) (h : Hub)
    → any (λ i. i == id) ids ≡ false
    → remove_all ids ((id, c) ∷ h) ≡ (id, c) ∷ remove_all ids h
unfolding remove_all delete
remove_all-skip [] id c h e = refl
remove_all-skip (i ∷ ids) id c h e = ground (
  arith,
  remove_map i ((id, c) ∷ h),
  remove_map i h,
  eq_iff i id,
  eq_iff id i,
  remove_all-skip ids id c (delete i h),
)

-- A connection stays if it is of another account, or of the session that is to be kept, where one is named.
abbrev pub stays : String → String → Client → Bool
stays user keep_sid c = not (c.user_id == user) || (not (keep_sid == "") && c.sid == keep_sid)

abbrev pub kept : String → String → Hub → Hub
kept user keep_sid [] = []
kept user keep_sid ((id, c) ∷ h) =
    if stays user keep_sid c then (id, c) ∷ kept user keep_sid h else kept user keep_sid h

dropped_ids_in :
    (user keep_sid id : String) (h : Hub)
    → lookup id h ≡ none
    → any (λ i. i == id) (dropped_ids user keep_sid h) ≡ false
unfolding lookup
dropped_ids_in user keep_sid id [] e = refl
dropped_ids_in user keep_sid id ((j, c) ∷ h) e =
    ground (arith, eq_iff j id, eq_iff id j, dropped_ids_in user keep_sid id h)

remove_all-kept :
    (user keep_sid : String) (h : Hub)
    → IsKeyed h
    → remove_all (dropped_ids user keep_sid h) h ≡ kept user keep_sid h
unfolding remove_all delete
remove_all-kept user keep_sid [] k = refl
remove_all-kept user keep_sid ((id, c) ∷ h) (n, k) = ground (
  arith,
  eq_refl id,
  remove_map id ((id, c) ∷ h),
  delete_absent id h n,
  dropped_ids_in user keep_sid id h n,
  remove_all-skip (dropped_ids user keep_sid h) id c h,
  remove_all-kept user keep_sid h k,
)

-- Of the user named, exactly the connections of another session than the one to keep are closed (all of
-- them if that is blank); every connection of another account stays as it was, in its place.
pub drop_user_except-kept :
    (raw keep_sid : String) (h : Hub)
    → IsKeyed h
    → drop_user_except raw keep_sid h
      ≡ (if trim_space raw == "" then h else kept (trim_space raw) (trim_space keep_sid) h)
unfolding drop_user_except
drop_user_except-kept raw keep_sid h k =
    rw (remove_all-kept (trim_space raw) (trim_space keep_sid) h k) refl

lookup-kept_none :
    (user keep_sid id : String) (h : Hub)
    → lookup id h ≡ none
    → lookup id (kept user keep_sid h) ≡ none
unfolding lookup
lookup-kept_none user keep_sid id [] e = refl
lookup-kept_none user keep_sid id ((j, c) ∷ h) e =
    ground (arith, lookup-kept_none user keep_sid id h)

lookup-kept :
    (user keep_sid id : String) (c : Client) (h : Hub)
    → IsKeyed h
    → lookup id h ≡ some c
    → is_dropped user keep_sid c ≡ true
    → lookup id (kept user keep_sid h) ≡ none
unfolding lookup
lookup-kept user keep_sid id c [] k e d = refl
lookup-kept user keep_sid id c ((j, b) ∷ h) (n, k) e d =
    ground
      (arith, eq_iff j id, lookup-kept_none user keep_sid id h, lookup-kept user keep_sid id c h k)

remove-absent : (id : String) (h : Hub) → lookup id h ≡ none → remove id h ≡ (h, no_info, false)
unfolding remove
remove-absent id h e = rw e refl

has_user-kept : (user : String) (h : Hub) → has_user user (kept user "" h) ≡ false
has_user-kept user [] = refl
has_user-kept user ((id, c) ∷ h) = ground (arith, has_user-kept user h)

drop_user-kept :
    (raw : String) (h : Hub)
    → IsKeyed h
    → (trim_space raw == "") ≡ false
    → drop_user raw h ≡ kept (trim_space raw) "" h
unfolding drop_user trim_space
drop_user-kept raw h k n = drop_user_except-kept raw "" h k ∙ rw n refl

-- The handler of a dropped connection later runs its own `remove`: the map no longer has the connection,
-- so the answer names no user and is never the user's last, though the user may now be offline.
pub remove-dropped :
    (raw id : String) (c : Client) (h : Hub)
    → IsKeyed h
    → (trim_space raw == "") ≡ false
    → lookup id h ≡ some c
    → (c.user_id == trim_space raw) ≡ true
    → (remove id (drop_user raw h) ≡ (drop_user raw h, no_info, false))
      × (has_user (trim_space raw) (drop_user raw h) ≡ false)
remove-dropped raw id c h k n e u = rw (drop_user-kept raw h k n) (
  remove-absent id (kept (trim_space raw) "" h)
      (lookup-kept (trim_space raw) "" id c h k e (rw u refl)),
  has_user-kept (trim_space raw) h,
)
