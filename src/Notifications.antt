-- ===== src/Notifications.antt =====
-- notifications.go: the recipients of a notification and the INSERT statements, in batches of a hundred. The id
-- and the time of a row, which the packages uuid and time supply, are left out, and so are the lists of what
-- was received. The query of the staff is taken to succeed, as nothing is sent otherwise. A batch that the database rejects is logged, and the next one is sent.
pub mod Recipients
pub mod Batches
pub mod Once
mod Tests
use leadflow_v3_server.Base.{
  ℕ, zero, suc, ◌+◌, ◌-◌, String, Bool, true, false, not, ◌&&◌, ◌||◌, List, [], ◌∷◌, ◌++◌, ◌==◌,
  any, keep, map, length, take, drop, is_nil, codes, ltb, trim_space, Option, none, some,
  if◌then◌else◌,
}
use leadflow_v3_server.Roles.{role_superadmin, role_main_team_lead, role_analyst_team_lead}
use leadflow_v3_server.Db.{UserRow}

-- `WHERE role IN ($1, $2, $3)`
abbrev pub is_staff : UserRow → Bool
is_staff u =
    any (λ r. u.role == r) (role_superadmin ∷ role_main_team_lead ∷ role_analyst_team_lead ∷ [])

-- `ORDER BY "createdAt" ASC`
unfoldable pub place_user : UserRow → List UserRow → List UserRow
place_user u [] = u ∷ []
place_user u (v ∷ us) =
    let later = v ∷ place_user u us in if ltb v.created_at u.created_at then later else u ∷ v ∷ us

unfoldable pub by_age : List UserRow → List UserRow
unfolding place_user
by_age [] = []
by_age (u ∷ us) = place_user u (by_age us)

abbrev pub is_member : String → List String → Bool
is_member id ids = any (λ y. y == id) ids

-- The loop over the rows: `seen` holds the ids that were appended.
unfoldable pub staff_loop : String → List String → List String → List String
staff_loop exclude_id seen [] = []
staff_loop exclude_id seen (id ∷ ids) =
    let skipped = staff_loop exclude_id seen ids in
    let appended = id ∷ staff_loop exclude_id (id ∷ seen) ids in
    if id == "" || id == exclude_id
    then skipped
    else if is_member id seen
    then skipped
    else appended

unfoldable pub staff_recipient_ids : List UserRow → String → List String
unfolding by_age staff_loop trim_space
staff_recipient_ids users exclude_id =
    staff_loop (trim_space exclude_id) [] (map (λ u. u.id) (by_age (keep is_staff users)))

unfoldable pub merge_loop : List String → List String → List String
unfolding trim_space
merge_loop seen [] = []
merge_loop seen (id ∷ ids) =
    let skipped = merge_loop seen ids in
    let appended = trim_space id ∷ merge_loop (trim_space id ∷ seen) ids in
    if trim_space id == "" || is_member (trim_space id) seen then skipped else appended

unfoldable pub merge_recipient_ids : List String → List String → List String
unfolding merge_loop
merge_recipient_ids base extra = merge_loop [] (base ++ extra)

pub record NotificationRow : Type 0 where
  pub recipient_id : String
  pub kind : String
  pub title : List ℕ
  pub body : Option (List ℕ)
  pub lead_id : Option String

-- A text above the bound is cut, with an ellipsis.
abbrev pub shorten : ℕ → List ℕ → List ℕ
shorten bound cs = if ltb bound (length cs) then take (bound - 3) cs ++ codes "…" else cs

abbrev pub null_if_empty : List ℕ → Option (List ℕ)
null_if_empty cs = if is_nil cs then none else some cs

-- The rows of one statement.
unfoldable pub batch : (String → NotificationRow) → List String → List NotificationRow
unfolding trim_space
batch row [] = []
batch row (id ∷ ids) =
    let rest = batch row ids in if trim_space id == "" then rest else row (trim_space id) ∷ rest

-- A statement without rows is not sent.
abbrev pub send : List NotificationRow → List (List NotificationRow) → List (List NotificationRow)
send [] rest = rest
send (r ∷ rows) rest = (r ∷ rows) ∷ rest

-- The loop over the batches, for so many turns.
unfoldable pub batches : ℕ → (String → NotificationRow) → List String → List (List NotificationRow)
unfolding batch
batches zero row ids = []
batches (suc turns) row [] = []
batches (suc turns) row (id ∷ ids) =
    send (batch row (take 100 (id ∷ ids))) (batches turns row (drop 100 (id ∷ ids)))

unfoldable pub create_many :
    List String → String → String → String → Option String → List (List NotificationRow)
unfolding batches trim_space
create_many recipient_ids kind title body lead_id =
    if trim_space kind == "" || trim_space title == ""
    then []
    else batches (length recipient_ids)
        (λ id. record {
          recipient_id = id;
          kind = trim_space kind;
          title = shorten 120 (codes (trim_space title));
          body = null_if_empty (shorten 180 (codes (trim_space body)));
          lead_id = lead_id;
        })
        recipient_ids

abbrev pub without_actor : String → List String → List String
without_actor actor_id ids = keep (λ id. not (id == trim_space actor_id)) ids

-- The statements that are sent.
unfoldable pub notify_staff :
    List UserRow
    → String
    → String
    → String
    → String
    → Option String
    → List String
    → List (List NotificationRow)
unfolding staff_recipient_ids merge_recipient_ids create_many trim_space
notify_staff users actor_id kind title body lead_id extra =
    create_many
      (without_actor actor_id (merge_recipient_ids (staff_recipient_ids users actor_id) extra)) kind
      title body lead_id
