-- ===== src/Notifications/Recipients.antt =====
-- notifications.go, `staffRecipientIDs` and `mergeRecipientIDs`: how often an id is among the recipients.
use leadflow_v3_server.Base.{
  ℕ, suc, String, Bool, true, false, not, ◌&&◌, ◌||◌, List, [], ◌∷◌, ◌==◌, ◌≡◌, refl, sym, ap, ◌∙◌,
  subst, any, keep, map, length, ltb, trim_space, text-cases, eq_refl, eq_false_of_ne, Bool-cases,
  inl, inr, false≢true, arith,
}
use leadflow_v3_server.Db.{UserRow}
use leadflow_v3_server.Notifications.{
  place_user, by_age, is_member, staff_loop, merge_loop, without_actor,
}

abbrev pub hits : String → List String → ℕ
hits id ids = length (keep (λ y. y == id) ids)

-- Some id of the list is `id` when it is trimmed.
abbrev pub is_named : String → List String → Bool
is_named id ids = any (λ y. trim_space y == id) ids

pub eq_false_sym : (s t : String) → (s == t) ≡ false → (t == s) ≡ false
eq_false_sym s t h = eq_false_of_ne t s (λ e. false≢true (sym h ∙ (ap (λ u. s == u) e ∙ eq_refl s)))

-- None where the test holds.
abbrev pub unless : Bool → ℕ → ℕ
unless true n = 0
unless false n = n

abbrev Merged : String → List String → List String → Type 0
Merged id seen ids =
    hits id (merge_loop seen ids)
    ≡ unless (is_member id seen || (id == "" || not (is_named id ids))) 1

skip_bools :
    (s e n n' : Bool)
    → (e || s) ≡ true
    → unless (s || (e || not n)) 1 ≡ unless (s || (e || not n')) 1
skip_bools true e n n' h = refl
skip_bools false true n n' h = refl
skip_bools false false n n' h = absurd (false≢true h)

pub merge_loop-Merged : (id : String) (seen ids : List String) → Merged id seen ids
unfolding merge_loop
merge_loop-Merged id seen [] = none_of (is_member id seen) (id == "")
  where
    none_of : (s e : Bool) → 0 ≡ unless (s || (e || true)) 1
    none_of true e = refl
    none_of false true = refl
    none_of false false = refl
merge_loop-Merged id seen (x ∷ xs) = elim (text-cases (trim_space x) id) [
  | inl e ↦
      subst (λ i. Merged i seen (x ∷ xs)) e
        (elim (Bool-cases (trim_space x == "" || is_member (trim_space x) seen)) [
          | inl b ↦ rw b (
              merge_loop-Merged (trim_space x) seen xs
              ∙ skip_bools (is_member (trim_space x) seen) (trim_space x == "") _ _ b)
          | inr b ↦
              let t = trim_space x in
              let here = rw (eq_refl t) at (merge_loop-Merged t (t ∷ seen) xs) in
              rw b (rw (eq_refl t) (ap (λ n. suc n) here ∙ fresh (is_member t seen) (t == "") b))
        ])
  | inr n ↦ elim (Bool-cases (trim_space x == "" || is_member (trim_space x) seen)) [
    | inl b ↦ rw b (rw n (merge_loop-Merged id seen xs))
    | inr b ↦ rw b (rw n (rw n at (merge_loop-Merged id (trim_space x ∷ seen) xs)))
  ]
]
  where
    fresh : (s e : Bool) → (e || s) ≡ false → 1 ≡ unless (s || (e || false)) 1
    fresh true true h = absurd (false≢true (sym h))
    fresh true false h = absurd (false≢true (sym h))
    fresh false true h = absurd (false≢true (sym h))
    fresh false false h = refl

-- The actor is taken out, and no one else.
pub hits-without_actor :
    (id actor_id : String) (ids : List String)
    → hits id (without_actor actor_id ids) ≡ unless (id == trim_space actor_id) (hits id ids)
hits-without_actor id actor_id ids = elim (text-cases id (trim_space actor_id)) [
  | inl e ↦
      subst
        (λ i. hits i (without_actor actor_id ids) ≡ unless (i == trim_space actor_id) (hits i ids))
        (sym e) (rw (eq_refl (trim_space actor_id)) (taken_out ids))
  | inr n ↦ rw n (kept n ids)
]
  where
    taken_out : (ys : List String) → hits (trim_space actor_id) (without_actor actor_id ys) ≡ 0
    taken_out [] = refl
    taken_out (y ∷ ys) = elim (Bool-cases (y == trim_space actor_id)) [
      | inl e ↦ rw e (taken_out ys)
      | inr e ↦ rw e (rw e (taken_out ys))
    ]

    kept :
        (id == trim_space actor_id) ≡ false
        → (ys : List String) → hits id (without_actor actor_id ys) ≡ hits id ys
    kept n [] = refl
    kept n (y ∷ ys) = elim (text-cases y (trim_space actor_id)) [
      | inl e ↦
          let other : (y == id) ≡ false =
            subst (λ z. (z == id) ≡ false) (sym e) (eq_false_sym id (trim_space actor_id) n) in
          let same : (y == trim_space actor_id) ≡ true =
            subst (λ z. (z == trim_space actor_id) ≡ true) (sym e)
              (eq_refl (trim_space actor_id)) in
          rw same (rw other (kept n ys))
      | inr e ↦ rw e (elim (Bool-cases (y == id)) [
        | inl h ↦ rw h (ap (λ m. suc m) (kept n ys))
        | inr h ↦ rw h (kept n ys)
      ])
    ]

-- The rows of the query are the staff, in some order.
place_user-any :
    (q : UserRow → Bool) (u : UserRow) (us : List UserRow)
    → any q (place_user u us) ≡ (q u || any q us)
unfolding place_user
place_user-any q u [] = refl
place_user-any q u (v ∷ us) = elim (Bool-cases (ltb v.created_at u.created_at)) [
  | inl e ↦ rw e (rw (place_user-any q u us) (swap (q v) (q u) (any q us)))
  | inr e ↦ rw e refl
]
  where
    swap : (a b c : Bool) → (a || (b || c)) ≡ (b || (a || c))
    swap a b c = ground arith

pub by_age-any : (q : UserRow → Bool) (us : List UserRow) → any q (by_age us) ≡ any q us
unfolding by_age
by_age-any q [] = refl
by_age-any q (u ∷ us) = place_user-any q u (by_age us) ∙ ap (λ b. q u || b) (by_age-any q us)

pub map-any :
    (p : String → Bool) (us : List UserRow) → any p (map (λ u. u.id) us) ≡ any (λ u. p u.id) us
map-any p [] = refl
map-any p (u ∷ us) = ap (λ b. p u.id || b) (map-any p us)

pub keep-any :
    (k q : UserRow → Bool) (us : List UserRow) → any q (keep k us) ≡ any (λ u. k u && q u) us
keep-any k q [] = refl
keep-any k q (u ∷ us) = elim (Bool-cases (k u)) [
  | inl e ↦ rw e (ap (λ b. q u || b) (keep-any k q us))
  | inr e ↦ rw e (keep-any k q us)
]

is_member-any :
    (p : String → Bool) (id : String) (ids : List String)
    → p id ≡ true
    → is_member id ids ≡ true
    → any p ids ≡ true
is_member-any p id [] h m = m
is_member-any p id (y ∷ ys) h m = elim (text-cases y id) [
  | inl e ↦ rw e (rw h refl)
  | inr n ↦ or_right (p y) (any p ys) (is_member-any p id ys h (rw n at m))
]
  where
    or_right : (a b : Bool) → b ≡ true → (a || b) ≡ true
    or_right a b q = ground arith

-- The loop leaves out only the excluded id, blank ones and repetitions.
pub staff_loop-any :
    (p : String → Bool) (exclude_id : String) (seen ids : List String)
    → p "" ≡ false
    → p exclude_id ≡ false
    → (any p (staff_loop exclude_id seen ids) || any p seen) ≡ (any p ids || any p seen)
unfolding staff_loop
staff_loop-any p exclude_id seen [] h k = refl
staff_loop-any p exclude_id seen (id ∷ ids) h k = elim (text-cases id "") [
  | inl e ↦ rw e (rw h (staff_loop-any p exclude_id seen ids h k))
  | inr a ↦ elim (text-cases id exclude_id) [
    | inl e ↦
        let out : (id == exclude_id) ≡ true =
          subst (λ z. (z == exclude_id) ≡ true) (sym e) (eq_refl exclude_id) in
        let none_named : p id ≡ false = subst (λ z. p z ≡ false) (sym e) k in
        rw a (rw out (rw none_named (staff_loop-any p exclude_id seen ids h k)))
    | inr b ↦ rw a (
        rw b (elim (Bool-cases (is_member id seen)) [
          | inl m ↦ rw m (
              staff_loop-any p exclude_id seen ids h k
              ∙ absorb (p id) (any p ids) (any p seen) (λ q. is_member-any p id seen q m))
          | inr m ↦ rw m (
              turn (p id) _ (any p ids) (any p seen)
                (staff_loop-any p exclude_id (id ∷ seen) ids h k))
        ]))
  ]
]
  where
    absorb : (x y s : Bool) → (x ≡ true → s ≡ true) → (y || s) ≡ ((x || y) || s)
    absorb true y s f = rw (f refl) (ends y)
      where
        ends : (y : Bool) → (y || true) ≡ true
        ends y = ground arith
    absorb false y s f = refl

    turn : (x m y s : Bool) → (m || (x || s)) ≡ (y || (x || s)) → ((x || m) || s) ≡ ((x || y) || s)
    turn true m y s e = refl
    turn false m y s e = e
