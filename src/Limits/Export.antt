-- ===== src/Limits/Export.antt =====
-- handlers_leads_export.go, `exportFlightLock`: one export at a time for each user. Time is in seconds and
-- does not run backwards.
use leadflow_v3_server.Base.{
  [], ◌∷◌, ◌==◌, All, text-cases, sym, subst, ◌<◌, not, ap, ◌∙◌, Bool-cases, inl, inr, false≢true,
  ℕ, ◌-◌, ◌≤◌, String, Option, none, some, Bool, true, false, List, ◌≡◌, ltb, lookup, insert,
  delete, lookup-insert, lookup-delete, if◌then◌else◌, arith, eq_refl, refl,
}

abbrev pub Flights : Type 0
Flights = List (String × ℕ)

abbrev pub in_flight : ℕ → Option ℕ → Bool
in_flight now none = false
in_flight now (some started) = ltb (now - started) 600

unfoldable pub acquire : ℕ → String → Flights → Flights × Bool
unfolding lookup insert
acquire now user active =
    if in_flight now (lookup user active) then (active, false) else (insert user now active, true)

unfoldable pub release : String → Flights → Flights
unfolding delete
release user active = delete user active

acquire-lookup :
    (now : ℕ) (user : String) (active : Flights)
    → (acquire now user active).1 ≡ true
    → lookup user (acquire now user active).0 ≡ some now
unfolding acquire
acquire-lookup now user active h = elim (Bool-cases (in_flight now (lookup user active))) [
  | inl e ↦ absurd (false≢true (rw e at h))
  | inr e ↦ rw e (lookup-insert user user now active ∙ simp (eq_refl user))
]

acquire-answer :
    (now : ℕ) (user : String) (active : Flights)
    → (acquire now user active).1 ≡ not (in_flight now (lookup user active))
unfolding acquire
acquire-answer now user active = ground arith

lookup-release : (user : String) (active : Flights) → lookup user (release user active) ≡ none
unfolding release
lookup-release user active = lookup-delete user user active ∙ simp (eq_refl user)

-- A call between two exports.
pub data Step : Type 0 where
  acquires : ℕ → String → Step
  releases : String → Step

abbrev pub stepped : Step → Flights → Flights
stepped (acquires now user) active = (acquire now user active).0
stepped (releases user) active = release user active

unfoldable pub run_steps : List Step → Flights → Flights
run_steps [] active = active
run_steps (step ∷ steps) active = run_steps steps (stepped step active)

-- A call that leaves the export of `user`, begun at `now`, in progress: none of its ten minutes is over, and
-- it is not released.
abbrev pub IsWithin : ℕ → String → Step → Type 0
IsWithin now user (acquires at other) = at - now < 600
IsWithin now user (releases other) = (other == user) ≡ false

acquire-refused :
    (now : ℕ) (user : String) (active : Flights)
    → in_flight now (lookup user active) ≡ true
    → (acquire now user active).0 ≡ active
unfolding acquire
acquire-refused now user active g = rw g refl

acquire-begun :
    (now : ℕ) (user : String) (active : Flights)
    → in_flight now (lookup user active) ≡ false
    → (acquire now user active).0 ≡ insert user now active
unfolding acquire
acquire-begun now user active g = rw g refl

stepped-lookup :
    (now : ℕ) (user : String) (step : Step) (active : Flights)
    → IsWithin now user step
    → lookup user active ≡ some now
    → lookup user (stepped step active) ≡ some now
unfolding release
stepped-lookup now user (acquires at other) active h e =
    elim (Bool-cases (in_flight at (lookup other active))) [
      | inl g ↦ ap (λ a. lookup user a) (acquire-refused at other active g) ∙ e
      | inr g ↦
          ap (λ a. lookup user a) (acquire-begun at other active g)
          ∙ lookup-insert other user at active
          ∙ elsewhere g
    ]
  where
    elsewhere :
        in_flight at (lookup other active) ≡ false
        → (if other == user then some at else lookup user active) ≡ some now
    elsewhere g = elim (text-cases other user) [
      | inl q ↦
          let busy : in_flight at (some now) ≡ true = ground arith in
          let free = subst (λ u. in_flight at (lookup u active) ≡ false) q g in
          absurd (false≢true (sym free ∙ ap (in_flight at) e ∙ busy))
      | inr q ↦ rw q e
    ]
stepped-lookup now user (releases other) active h e = lookup-delete other user active ∙ rw h e

run_steps-lookup :
    (now : ℕ) (user : String) (steps : List Step) (active : Flights)
    → All (IsWithin now user) steps
    → lookup user active ≡ some now
    → lookup user (run_steps steps active) ≡ some now
unfolding run_steps
run_steps-lookup now user [] active h e = e
run_steps-lookup now user (step ∷ steps) active h e =
    run_steps-lookup now user steps (stepped step active) h.1
      (stepped-lookup now user step active h.0 e)

-- While an export that began less than ten minutes ago has not been released, no second one of that user
-- begins, whatever exports begin and end in the meantime, those of the user not being released.
pub acquire-exclusive :
    (now later : ℕ) (user : String) (steps : List Step) (active : Flights)
    → (acquire now user active).1 ≡ true
    → All (IsWithin now user) steps
    → later - now < 600
    → (acquire later user (run_steps steps (acquire now user active).0)).1 ≡ false
acquire-exclusive now later user steps active h w k =
    let held = run_steps-lookup now user steps _ w (acquire-lookup now user active h) in
    acquire-answer later user _ ∙ ap (λ o. not (in_flight later o)) held ∙ ground arith

-- An export that outlives its ten minutes lets a second one of the user begin. Its release, which names the
-- user only, takes the lock of the second: a third, which the second excludes in its ten minutes, may
-- begin at once after that release.
pub release-overlap :
    (first second third : ℕ) (user : String) (active : Flights)
    → (acquire first user active).1 ≡ true
    → 600 ≤ second - first
    → third - second < 600
    → let both = (acquire second user (acquire first user active).0).0 in
      ((acquire second user (acquire first user active).0).1 ≡ true)
      × (((acquire third user both).1 ≡ false)
          × ((acquire third user (release user both)).1 ≡ true))
release-overlap first second third user active h k m =
    let held = acquire-lookup first user active h in
    let begun : (acquire second user (acquire first user active).0).1 ≡ true =
      acquire-answer second user _ ∙ ap (λ o. not (in_flight second o)) held ∙ ground arith in
    (
      begun,
      (
        acquire-answer third user _
            ∙ ap (λ o. not (in_flight third o)) (acquire-lookup second user _ begun)
            ∙ ground arith,
        acquire-answer third user _
            ∙ ap (λ o. not (in_flight third o)) (lookup-release user (acquire second user _).0),
      ),
    )
