-- ===== src/Limits/Tests.antt =====
-- The limits on concrete calls.
use leadflow_v3_server.Base.{
  ℕ, ◌≤◌, String, some, true, false, ◌≡◌, refl, List, [], ◌∷◌, length, lookup, arith,
}
use leadflow_v3_server.Limits.Login.{LoginLimiter}
use leadflow_v3_server.Limits.Login.Quota.{allow-quota, run_calls, trues}
use leadflow_v3_server.Limits.Cache.{get, set, clear}
use leadflow_v3_server.Limits.Cache.History.{Call, sets, clears, after, IsAnswer, get-newest}
use leadflow_v3_server.Limits.Export.{
  Step, acquires, releases, run_steps, acquire, release, acquire-exclusive, release-overlap,
}

abbrev limiter : LoginLimiter
limiter = record {
  buckets = ("ip", record { count = 1; reset_at = 60 }) ∷ [];
  limit = 2;
  window = 60;
}

abbrev calls : List (ℕ × String)
calls = (5, "ip") ∷ (6, "other") ∷ (7, "ip") ∷ []

allow-quota_example : trues (run_calls "ip" calls limiter).1 ≡ 1
unfolding lookup
allow-quota_example =
    allow-quota "ip" calls (record { count = 1; reset_at = 60 }) limiter refl
      (omega arith, (omega arith, (omega arith, tt)))

abbrev history : List Call
history = sets 20 "other" (8 ∷ []) 5 ∷ sets 10 "kpi" (7 ∷ []) 5 ∷ clears ∷ []

get-newest_example :
    (length (after history) ≤ 4_096) × IsAnswer history "kpi" 12 (get 12 "kpi" (after history))
get-newest_example = get-newest history 12 "kpi"

found : get 12 "kpi" (after history) ≡ some (7 ∷ [])
unfolding after get set clear
found = refl

abbrev steps : List Step
steps = acquires 5 "bob" ∷ acquires 6 "ann" ∷ releases "bob" ∷ []

acquire-exclusive_example : (acquire 599 "ann" (run_steps steps (acquire 0 "ann" []).0)).1 ≡ false
unfolding acquire
acquire-exclusive_example =
    acquire-exclusive 0 599 "ann" steps [] refl (omega arith, (omega arith, (refl, tt)))
      (omega arith)

release-overlap_example :
    ((acquire 600 "ann" (acquire 0 "ann" []).0).1 ≡ true)
    × (((acquire 601 "ann" (acquire 600 "ann" (acquire 0 "ann" []).0).0).1 ≡ false)
        × ((acquire 601 "ann" (release "ann" (acquire 600 "ann" (acquire 0 "ann" []).0).0)).1
            ≡ true))
unfolding acquire
release-overlap_example = release-overlap 0 600 601 "ann" [] refl (omega arith) (omega arith)
