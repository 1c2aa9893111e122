-- ===== src/Limits/Login/Quota.antt =====
-- ratelimit.go: how many calls a window lets through, whatever the other keys do meanwhile.
use leadflow_v3_server.Base.{
  ℕ, suc, ◌-◌, ◌≤◌, String, Option, none, some, Bool, true, false, not, leb→le, subst, List, [],
  ◌∷◌, ◌==◌, ◌≡◌, sym, ap, ◌∙◌, inl, inr, leb, lookup, lookup-insert, if◌then◌else◌, arith,
  Bool-cases, text-cases, eq_refl,
}
use Prim.Native.Nat.{min}
use leadflow_v3_server.Limits.Login.{
  RateBucket, LoginLimiter, is_expired, drop_expired, prune_locked, fresh_bucket, decide_bucket,
  allow,
}

lookup-drop_expired :
    (now : ℕ) (key : String) (b : RateBucket) (m : List (String × RateBucket))
    → is_expired now b ≡ false
    → lookup key m ≡ some b
    → lookup key (drop_expired now m) ≡ some b
unfolding lookup drop_expired
lookup-drop_expired now key b [] n h = cc
lookup-drop_expired now key b ((k, c) ∷ m) n h = ground (arith, lookup-drop_expired now key b m n)

lookup-prune_locked :
    (now : ℕ) (key : String) (b : RateBucket) (l : LoginLimiter)
    → is_expired now b ≡ false
    → lookup key l.buckets ≡ some b
    → (lookup key (prune_locked now l).buckets ≡ some b) × ((prune_locked now l).limit ≡ l.limit)
unfolding prune_locked
lookup-prune_locked now key b l n h = ground (arith, lookup-drop_expired now key b l.buckets n)

-- The calls in their order, and the answers to those of one key.
unfoldable pub run_calls : String → List (ℕ × String) → LoginLimiter → LoginLimiter × List Bool
run_calls key [] l = (l, [])
run_calls key ((now, k) ∷ calls) l =
    let (l', answer) = allow now k l in
    let (l'', rest) = run_calls key calls l' in (l'', if k == key then answer ∷ rest else rest)

abbrev pub trues : List Bool → ℕ
trues [] = 0
trues (true ∷ bs) = suc (trues bs)
trues (false ∷ bs) = trues bs

abbrev pub calls_of : String → List (ℕ × String) → ℕ
calls_of key [] = 0
calls_of key ((now, k) ∷ calls) = if k == key then suc (calls_of key calls) else calls_of key calls

-- Every call falls within the window of the bucket.
abbrev pub WithinWindow : RateBucket → List (ℕ × String) → Type 0
WithinWindow b [] = Unit
WithinWindow b ((now, k) ∷ calls) = (now ≤ b.reset_at) × WithinWindow b calls

-- Another key's call leaves the bucket alone.
decide_other :
    (now : ℕ) (key k : String) (b : RateBucket) (l : LoginLimiter) (o : Option RateBucket)
    → lookup key l.buckets ≡ some b
    → (k == key) ≡ false
    → (lookup key (decide_bucket now k l o).0.buckets ≡ some b)
      × ((decide_bucket now k l o).0.limit ≡ l.limit)
decide_other now key k b l none h d =
    ground (arith, lookup-insert k key (fresh_bucket now l) l.buckets)
decide_other now key k b l (some c) h d = ground (
  arith,
  lookup-insert k key (fresh_bucket now l) l.buckets,
  lookup-insert k key (record c { count = suc c.count }) l.buckets,
)

-- A call of the key itself: refused at the limit, else counted.
abbrev counted : LoginLimiter → RateBucket → RateBucket
counted l b = if leb l.limit b.count then b else record b { count = suc b.count }

decide_same :
    (now : ℕ) (key : String) (b : RateBucket) (l : LoginLimiter)
    → is_expired now b ≡ false
    → lookup key l.buckets ≡ some b
    → (lookup key (decide_bucket now key l (some b)).0.buckets ≡ some (counted l b))
      × ((decide_bucket now key l (some b)).0.limit ≡ l.limit)
      × ((decide_bucket now key l (some b)).1 ≡ not (leb l.limit b.count))
decide_same now key b l n h =
    ground (arith, eq_refl key, lookup-insert key key (record b { count = suc b.count }) l.buckets)

not_expired : (now : ℕ) (b : RateBucket) → now ≤ b.reset_at → is_expired now b ≡ false
not_expired now b h = ground arith

allow_other :
    (now : ℕ) (key k : String) (b : RateBucket) (l : LoginLimiter)
    → is_expired now b ≡ false
    → lookup key l.buckets ≡ some b
    → (k == key) ≡ false
    → (lookup key (allow now k l).0.buckets ≡ some b) × ((allow now k l).0.limit ≡ l.limit)
unfolding allow
allow_other now key k b l n h d =
    let p = lookup-prune_locked now key b l n h in
    let q =
      decide_other now key k b (prune_locked now l) (lookup k (prune_locked now l).buckets) p.0 d in
    (q.0, q.1 ∙ p.1)

allow-decides :
    (now : ℕ) (key : String) (b : RateBucket) (l : LoginLimiter)
    → lookup key (prune_locked now l).buckets ≡ some b
    → allow now key l ≡ decide_bucket now key (prune_locked now l) (some b)
unfolding allow
allow-decides now key b l h = ap (decide_bucket now key (prune_locked now l)) h

allow_same :
    (now : ℕ) (key : String) (b : RateBucket) (l : LoginLimiter)
    → is_expired now b ≡ false
    → lookup key l.buckets ≡ some b
    → (lookup key (allow now key l).0.buckets ≡ some (counted l b))
      × ((allow now key l).0.limit ≡ l.limit)
      × ((allow now key l).1 ≡ not (leb l.limit b.count))
allow_same now key b l n h =
    let p = lookup-prune_locked now key b l n h in
    rw (allow-decides now key b l p.0)
      (ground (arith, decide_same now key b (prune_locked now l) n p.0, p.1))

allow_full :
    (now : ℕ) (key : String) (b : RateBucket) (l : LoginLimiter)
    → is_expired now b ≡ false
    → lookup key l.buckets ≡ some b
    → leb l.limit b.count ≡ true
    → (lookup key (allow now key l).0.buckets ≡ some b)
      × ((allow now key l).0.limit ≡ l.limit)
      × ((allow now key l).1 ≡ false)
allow_full now key b l n h full = rw full at (allow_same now key b l n h)

allow_room :
    (now : ℕ) (key : String) (b : RateBucket) (l : LoginLimiter)
    → is_expired now b ≡ false
    → lookup key l.buckets ≡ some b
    → leb l.limit b.count ≡ false
    → (lookup key (allow now key l).0.buckets ≡ some (record b { count = suc b.count }))
      × ((allow now key l).0.limit ≡ l.limit)
      × ((allow now key l).1 ≡ true)
allow_room now key b l n h room = rw room at (allow_same now key b l n h)

leb-false : (a b : ℕ) → leb a b ≡ false → suc b ≤ a
leb-false a b h = ground arith

after_full :
    (limit limit' used calls : ℕ) (answer : Bool) (rest : List Bool)
    → answer ≡ false
    → limit' ≡ limit
    → leb limit used ≡ true
    → trues rest ≡ min (limit' - used) calls
    → trues (answer ∷ rest) ≡ min (limit - used) (suc calls)
after_full limit limit' used calls false rest a e f h = omega (arith, leb→le limit used f)
after_full limit limit' used calls true rest a e f h = cc

after_room :
    (limit limit' used calls : ℕ) (answer : Bool) (rest : List Bool)
    → answer ≡ true
    → limit' ≡ limit
    → leb limit used ≡ false
    → trues rest ≡ min (limit' - suc used) calls
    → trues (answer ∷ rest) ≡ min (limit - used) (suc calls)
after_room limit limit' used calls true rest a e f h = omega (arith, leb-false limit used f)
after_room limit limit' used calls false rest a e f h = cc

-- While the bucket of a key lasts, the limiter lets exactly as many of its calls through as the limit leaves, whatever
-- is called for other keys in between, pruning included.
pub allow-quota :
    (key : String) (calls : List (ℕ × String)) (b : RateBucket) (l : LoginLimiter)
    → lookup key l.buckets ≡ some b
    → WithinWindow b calls
    → trues (run_calls key calls l).1 ≡ min (l.limit - b.count) (calls_of key calls)
unfolding run_calls
allow-quota key [] b l h w = omega arith
allow-quota key ((now, k) ∷ calls) b l h w = elim (text-cases k key) [
  | inl e ↦
      let x = not_expired now b w.0 in
      subst
        (λ k.
          trues (run_calls key ((now, k) ∷ calls) l).1
          ≡ min (l.limit - b.count) (calls_of key ((now, k) ∷ calls)))
        (sym e)
        (elim (Bool-cases (leb l.limit b.count)) [
          | inl full ↦
              let a = allow_full now key b l x h full in
              rw eq_refl (
                after_full l.limit (allow now key l).0.limit b.count (calls_of key calls)
                  (allow now key l).1 _ a.2 a.1 full
                  (allow-quota key calls b (allow now key l).0 a.0 w.1))
          | inr room ↦
              let a = allow_room now key b l x h room in
              rw eq_refl (
                after_room l.limit (allow now key l).0.limit b.count (calls_of key calls)
                  (allow now key l).1 _ a.2 a.1 room
                  (allow-quota key calls (record b { count = suc b.count }) (allow now key l).0 a.0
                    w.1))
        ])
  | inr e ↦
      let q = allow_other now key k b l (not_expired now b w.0) h e in
      rw e (
        allow-quota key calls b (allow now k l).0 q.0 w.1
        ∙ ap (λ n. min (n - b.count) (calls_of key calls)) q.1)
]
