-- ===== src/Hub/Tests.antt =====
-- realtime.go: two connections of one user and one of another.
use leadflow_v3_server.Base.{
  String, true, false, ◌≡◌, not, refl, [], ◌∷◌, lookup, trim_space, if◌then◌else◌, length, ◌==◌,
  none, suc,
}
use leadflow_v3_server.Hub.{
  Client, Hub, no_info, info_of, has_user, add, remove, drop_user, drop_user_except,
}
use leadflow_v3_server.Hub.Presence.{IsKeyed, add-online, remove-online}
use leadflow_v3_server.Hub.Dropping.{kept, drop_user_except-kept, remove-dropped}

abbrev tab : String → String → String → Client
tab id user sid = record {
  id = id;
  user_id = user;
  role = "";
  team_id = "";
  sid = sid;
  waiting = [];
}

abbrev three : Hub
three = ("1", tab "1" "ann" "old") ∷ ("2", tab "2" "bob" "s") ∷ ("3", tab "3" "ann" "new") ∷ []

three-IsKeyed : IsKeyed three
unfolding lookup
three-IsKeyed = (refl, (refl, (refl, tt)))

add-online_example :
    (has_user "cy" (add (tab "4" "cy" "t") three).0 ≡ true)
    × ((add (tab "4" "cy" "t") three).2 ≡ true)
    × ((add (tab "4" "cy" "t") three).1 ≡ 4)
unfolding lookup
add-online_example = add-online (tab "4" "cy" "t") "cy" three refl

remove-online_example :
    ((remove "2" three).2 ≡ not (has_user "bob" (remove "2" three).0))
    × ((remove "2" three).1 ≡ info_of (tab "2" "bob" "s"))
    × (has_user "ann" three ≡ has_user "ann" (remove "2" three).0)
    × ((at : String)
        → lookup at (remove "2" three).0 ≡ (if "2" == at then none else lookup at three))
    × (suc (length (remove "2" three).0) ≡ length three)
unfolding lookup
remove-online_example = remove-online "2" "ann" (tab "2" "bob" "s") three three-IsKeyed refl

drop_user_except-kept_example : drop_user_except " ann" "new" three ≡ kept "ann" "new" three
unfolding trim_space
drop_user_except-kept_example = drop_user_except-kept " ann" "new" three three-IsKeyed

remove-dropped_example :
    (remove "1" (drop_user "ann" three) ≡ (drop_user "ann" three, no_info, false))
    × (has_user "ann" (drop_user "ann" three) ≡ false)
unfolding trim_space lookup
remove-dropped_example =
    remove-dropped "ann" "1" (tab "1" "ann" "old") three three-IsKeyed refl refl refl
