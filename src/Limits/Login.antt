-- ===== src/Limits/Login.antt =====
-- ratelimit.go: the login limiter. `now` is the clock; the lock makes each call one step.
pub mod Quota
use leadflow_v3_server.Base.{
  ℕ, suc, ◌+◌, String, Option, none, some, Bool, true, false, not, ◌&&◌, List, [], ◌∷◌, ltb, leb,
  length, keep, lookup, insert, if◌then◌else◌,
}

pub record RateBucket : Type 0 where
  pub count : ℕ
  pub reset_at : ℕ

pub record LoginLimiter : Type 0 where
  pub buckets : List (String × RateBucket)
  pub limit : ℕ
  pub window : ℕ

unfoldable pub new_login_limiter : ℕ → ℕ → LoginLimiter
new_login_limiter limit window = record { buckets = []; limit = limit; window = window }

-- `now.After(b.resetAt)`
abbrev pub is_expired : ℕ → RateBucket → Bool
is_expired now b = ltb b.reset_at now

unfoldable pub drop_expired : ℕ → List (String × RateBucket) → List (String × RateBucket)
drop_expired now [] = []
drop_expired now ((k, b) ∷ m) =
    if is_expired now b then drop_expired now m else (k, b) ∷ drop_expired now m

unfoldable pub prune_locked : ℕ → LoginLimiter → LoginLimiter
unfolding drop_expired
prune_locked now l =
    if ltb (length l.buckets) 256 then l else record l { buckets = drop_expired now l.buckets }

abbrev pub put_bucket : String → RateBucket → LoginLimiter → LoginLimiter
put_bucket key b l = record l { buckets = insert key b l.buckets }

abbrev pub fresh_bucket : ℕ → LoginLimiter → RateBucket
fresh_bucket now l = record { count = 1; reset_at = now + l.window }

-- What follows the lookup.
abbrev pub decide_bucket : ℕ → String → LoginLimiter → Option RateBucket → LoginLimiter × Bool
decide_bucket now key l none = (put_bucket key (fresh_bucket now l) l, true)
decide_bucket now key l (some b) =
    if is_expired now b
    then (put_bucket key (fresh_bucket now l) l, true)
    else if leb l.limit b.count
    then (l, false)
    else (put_bucket key (record b { count = suc b.count }) l, true)

unfoldable pub allow : ℕ → String → LoginLimiter → LoginLimiter × Bool
unfolding prune_locked lookup insert
allow now key l =
    let pruned = prune_locked now l in decide_bucket now key pruned (lookup key pruned.buckets)
