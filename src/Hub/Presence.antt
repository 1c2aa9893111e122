-- ===== src/Hub/Presence.antt =====
-- realtime.go: connecting and disconnecting report exactly the changes of who is online.
use leadflow_v3_server.Base.{
  lookup-delete, if◌then◌else◌, suc, String, none, some, not, ◌||◌, [], ◌∷◌, ◌==◌, ◌≡◌, refl,
  length, lookup, insert, delete, arith, eq_iff,
}
use leadflow_v3_server.Hub.{Client, Hub, info_of, has_user, add, remove}

-- The keys of the map are distinct.
abbrev pub IsKeyed : Hub → Type 0
IsKeyed [] = Unit
IsKeyed ((id, c) ∷ h) = (lookup id h ≡ none) × IsKeyed h

has_user-insert :
    (c : Client) (user : String) (h : Hub)
    → lookup c.id h ≡ none
    → has_user user (insert c.id c h) ≡ (has_user user h || c.user_id == user)
unfolding lookup insert
has_user-insert c user [] e = ground arith
has_user-insert c user ((id, d) ∷ h) e = ground (arith, has_user-insert c user h)

length-insert_new :
    (id : String) (c : Client) (h : Hub)
    → lookup id h ≡ none
    → length (insert id c h) ≡ suc (length h)
unfolding lookup insert
length-insert_new id c [] e = refl
length-insert_new id c ((j, d) ∷ h) e = ground (arith, length-insert_new id c h)

-- A connection under a fresh id (they are random) makes its user online and changes nobody else; it is
-- reported as the first exactly if the user was offline, and the total counts it.
pub add-online :
    (c : Client) (user : String) (h : Hub)
    → lookup c.id h ≡ none
    → (has_user user (add c h).0 ≡ (has_user user h || c.user_id == user))
      × ((add c h).2 ≡ not (has_user c.user_id h))
      × ((add c h).1 ≡ suc (length h))
unfolding add
add-online c user h e = (has_user-insert c user h e, refl, length-insert_new c.id c h e)

pub delete_absent : (id : String) (h : Hub) → lookup id h ≡ none → delete id h ≡ h
unfolding lookup delete
delete_absent id [] e = refl
delete_absent id ((j, d) ∷ h) e = ground (arith, delete_absent id h)

has_user-delete :
    (id user : String) (c : Client) (h : Hub)
    → IsKeyed h
    → lookup id h ≡ some c
    → has_user user h ≡ (c.user_id == user || has_user user (delete id h))
unfolding lookup delete
has_user-delete id user c [] k e = ground arith
has_user-delete id user c ((j, d) ∷ h) (n, k) e =
    ground (arith, eq_iff j id, delete_absent id h, has_user-delete id user c h k)

length-delete :
    (id : String) (c : Client) (h : Hub)
    → IsKeyed h
    → lookup id h ≡ some c
    → suc (length (delete id h)) ≡ length h
unfolding lookup delete
length-delete id c [] k e = ground arith
length-delete id c ((j, d) ∷ h) (n, k) e =
    ground (arith, eq_iff j id, delete_absent id h, length-delete id c h k)

-- Closing a connection that is in the map takes it out and leaves every other; it keeps its user online
-- exactly if it was not reported as the user's last, names the user, and changes nobody else.
pub remove-online :
    (id user : String) (c : Client) (h : Hub)
    → IsKeyed h
    → lookup id h ≡ some c
    → ((remove id h).2 ≡ not (has_user c.user_id (remove id h).0))
      × ((remove id h).1 ≡ info_of c)
      × (has_user user h ≡ (c.user_id == user || has_user user (remove id h).0))
      × ((at : String) → lookup at (remove id h).0 ≡ (if id == at then none else lookup at h))
      × (suc (length (remove id h).0) ≡ length h)
unfolding remove
remove-online id user c h k e = rw e (
  refl,
  refl,
  has_user-delete id user c h k e,
  (λ at. lookup-delete id at h),
  length-delete id c h k e,
)
