-- ===== src/Hub.antt =====
-- realtime.go, `RealtimeHub`: the live connections, who counts as online, and the fan-out of events. The
-- lock makes each method one step; a channel is the list of its waiting payloads; `encode` stands for
-- json.Marshal of an event, whose failure sends nothing.
pub mod Presence
pub mod Dropping
pub mod Tests
use leadflow_v3_server.Base.{
  ℕ, suc, ◌+◌, String, Option, none, some, Bool, true, false, not, ◌&&◌, ◌||◌, List, [], ◌∷◌, ◌++◌,
  ◌==◌, any, eqb, ltb, length, keep, lookup, insert, delete, trim_space, if◌then◌else◌,
}

pub record PresenceInfo : Type 0 where
  pub user_id : String
  pub team_id : String
  pub role : String

pub record Client : Type 0 where
  pub id : String
  pub user_id : String
  pub role : String
  pub team_id : String
  pub sid : String
  pub waiting : List String

abbrev pub Hub : Type 0
Hub = List (String × Client)

-- `make(chan []byte, 64)`
abbrev pub channel_cap : ℕ
channel_cap = 64

unfoldable pub new_realtime_hub : Hub
new_realtime_hub = []

-- `for _, c := range h.clients { if c.userID == userID … }`
abbrev pub has_user : String → Hub → Bool
has_user user [] = false
has_user user ((id, c) ∷ h) = c.user_id == user || has_user user h

unfoldable pub add : Client → Hub → Hub × ℕ × Bool
unfolding insert
add c h = (insert c.id c h, length (insert c.id c h), not (has_user c.user_id h))

abbrev pub no_info : PresenceInfo
no_info = record { user_id = ""; team_id = ""; role = "" }

abbrev pub info_of : Client → PresenceInfo
info_of c = record { user_id = c.user_id; team_id = c.team_id; role = c.role }

abbrev pub removed : String → Hub → Option Client → Hub × PresenceInfo × Bool
removed id h none = (h, no_info, false)
removed id h (some c) = (delete id h, info_of c, not (has_user c.user_id (delete id h)))

unfoldable pub remove : String → Hub → Hub × PresenceInfo × Bool
unfolding lookup delete
remove id h = removed id h (lookup id h)

unfoldable pub client_count : Hub → ℕ
client_count h = length h

unfoldable pub is_online : String → Hub → Bool
is_online raw h = let user = trim_space raw in if user == "" then false else has_user user h

-- The map `seen` keeps the first connection of each user.
abbrev pub first_of_users : List String → Hub → List PresenceInfo
first_of_users seen [] = []
first_of_users seen ((id, c) ∷ h) =
    let skipped = first_of_users seen h in
    let taken = info_of c ∷ first_of_users (c.user_id ∷ seen) h in
    if any (λ u. u == c.user_id) seen then skipped else taken

unfoldable pub snapshot : Hub → List PresenceInfo
snapshot h = first_of_users [] h

unfoldable pub online_count : String → Hub → ℕ
unfolding snapshot
online_count raw h =
    let trimmed = trim_space raw in
    let team = if trimmed == "none" then "" else trimmed in
    length (keep (λ p. team == "" || p.team_id == team) (snapshot h))

-- `select { case c.ch <- payload: default: }`
abbrev pub offered : String → Client → Client
offered payload c =
    if ltb (length c.waiting) channel_cap
    then record c { waiting = c.waiting ++ payload ∷ [] }
    else c

abbrev pub offer_where : (Client → Bool) → String → Hub → Hub
offer_where p payload [] = []
offer_where p payload ((id, c) ∷ h) =
    (id, if p c then offered payload c else c) ∷ offer_where p payload h

abbrev pub sent : (Client → Bool) → Option String → Hub → Hub
sent p none h = h
sent p (some payload) h = offer_where p payload h

unfoldable pub broadcast : Option String → Hub → Hub
broadcast encoded h = sent (λ c. true) encoded h

unfoldable pub broadcast_to_user : String → Option String → Hub → Hub
broadcast_to_user raw encoded h =
    let user = trim_space raw in if user == "" then h else sent (λ c. c.user_id == user) encoded h

-- Which connections `DropUserExcept` closes; `keep_sid` is trimmed.
abbrev pub is_dropped : String → String → Client → Bool
is_dropped user keep_sid c = c.user_id == user && not (not (keep_sid == "") && c.sid == keep_sid)

abbrev pub dropped_ids : String → String → Hub → List String
dropped_ids user keep_sid [] = []
dropped_ids user keep_sid ((id, c) ∷ h) =
    if is_dropped user keep_sid c
    then id ∷ dropped_ids user keep_sid h
    else dropped_ids user keep_sid h

-- The results of `h.remove` are not used.
unfoldable pub remove_all : List String → Hub → Hub
unfolding remove
remove_all [] h = h
remove_all (id ∷ ids) h = remove_all ids (remove id h).0

unfoldable pub drop_user_except : String → String → Hub → Hub
unfolding remove_all
drop_user_except raw keep_sid h =
    let user = trim_space raw in
    if user == "" then h else remove_all (dropped_ids user (trim_space keep_sid) h) h

unfoldable pub drop_user : String → Hub → Hub
unfolding drop_user_except
drop_user raw h = drop_user_except raw "" h
