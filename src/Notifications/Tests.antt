-- ===== src/Notifications/Tests.antt =====
-- notifications.go: a notification of the staff and of a member.
use leadflow_v3_server.Base.{
  String, not, ◌||◌, ◌≤◌, List, [], ◌∷◌, ◌==◌, ◌≡◌, refl, length, joined, All, trim_space, none,
}
use leadflow_v3_server.Db.{UserRow}
use leadflow_v3_server.Db.Samples.{captain}
use leadflow_v3_server.Notifications.{notify_staff}
use leadflow_v3_server.Notifications.Recipients.{hits, unless}
use leadflow_v3_server.Notifications.Batches.{recipients}
use leadflow_v3_server.Notifications.Once.{is_wanted, notify_staff-once}

abbrev staff : List UserRow
staff = captain ∷ record captain { id = "boss" } ∷ []

notify_staff-once_example :
    ((id : String)
      → hits id (
          recipients (
            joined
              (notify_staff staff "boss" "LEAD_ADDED" "New lead" "" none (" m1 " ∷ "m1" ∷ []))))
        ≡ unless
            (id == "" || (id == trim_space "boss" || not (is_wanted staff (" m1 " ∷ "m1" ∷ []) id)))
            1)
    × All
        (λ rows. length rows ≤ 100)
        (notify_staff staff "boss" "LEAD_ADDED" "New lead" "" none (" m1 " ∷ "m1" ∷ []))
unfolding trim_space
notify_staff-once_example =
    notify_staff-once staff "boss" "LEAD_ADDED" "New lead" "" none (" m1 " ∷ "m1" ∷ []) refl refl
