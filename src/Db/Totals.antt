-- ===== src/Db/Totals.antt =====
-- `Works m d Q`: on a database server that answers every statement, `m` from `d` does succeed, and its value
-- and the database it leaves meet `Q`. The rules mirror those of Triples.
use leadflow_v3_server.Base.{
  if◌then◌else◌, Bool, true, false, [], ◌≡◌, refl, sym, subst, false≢true,
}
use leadflow_v3_server.Db.{Db, Conn}
use leadflow_v3_server.Db.Statements.{
  Error, Result, ok, err, M, pure, ◌>>=◌, ◌>>◌, refuse_if, query, exec_or, transact, continue,
  later, ended,
}
use leadflow_v3_server.Db.Triples.{Runs, OnOk}

abbrev pub Succeeds : {A : Type 0} → (A → Db → Type 0) → Result A × Conn → Type 0
Succeeds Q (ok a, c) = (c.replies ≡ []) × Q a c.db
Succeeds Q (err e, c) = ⊥

unfoldable pub Works : {A : Type 0} → M A → Db → (A → Db → Type 0) → Type 0
Works m d Q = (c : Conn) → c.db ≡ d → c.replies ≡ [] → Succeeds Q (m c)

later_idle : (c : Conn) → c.replies ≡ [] → (later c).replies ≡ []
later_idle c r = rw r refl

module _ {A : Type 0} where
  pub Works-pure : (a : A) (d : Db) (Q : A → Db → Type 0) → Q a d → Works (pure a) d Q
  unfolding Works
  Works-pure a d Q q c e r = (r, subst (Q a) (sym e) q)

  pub Works-refuse :
      (b : Bool) (e : Error) (k : M A) (d : Db) (Q : A → Db → Type 0)
      → b ≡ false
      → Works k d Q
      → Works (refuse_if b e >> k) d Q
  unfolding Works refuse_if ◌>>◌
  Works-refuse true e k d Q f h c p r = absurd (false≢true (sym f))
  Works-refuse false e k d Q f h c p r = h c p r

  pub Works-if :
      (b : Bool) (m n : M A) (d : Db) (Q : A → Db → Type 0)
      → (b ≡ true → Works m d Q)
      → (b ≡ false → Works n d Q)
      → Works (if b then m else n) d Q
  Works-if true m n d Q h k = h refl
  Works-if false m n d Q h k = k refl

  ended-Succeeds :
      (d : Db) (Q : A → Db → Type 0) (r : Result A × Conn) → Succeeds Q r → Succeeds Q (ended d r)
  ended-Succeeds d Q (ok a, c) (r, q) = rw r (refl, q)
  ended-Succeeds d Q (err e, c) q = absurd q

  pub Works-transact :
      (m : M A) (d : Db) (Q : A → Db → Type 0) → Works m d Q → Works (transact m) d Q
  unfolding Works transact
  Works-transact m d Q h c p r = rw r (ended-Succeeds c.db Q _ (h _ p refl))

  joined : (Q R : A → Db → Type 0) (r : Result A × Conn) → Succeeds Q r → OnOk R r → Succeeds R r
  joined Q R (ok a, c) s o = (s.0, o)
  joined Q R (err e, c) s o = absurd s

  -- What holds of every run that succeeds holds of a run that works.
  pub Works-Runs :
      (m : M A) (d : Db) (Q R : A → Db → Type 0) → Works m d Q → Runs m d R → Works m d R
  unfolding Works Runs
  Works-Runs m d Q R w h c p r = joined Q R (m c) (w c p r) (h c p)

  weaken-Succeeds :
      (R Q : A → Db → Type 0) (r : Result A × Conn)
      → Succeeds R r
      → ((a : A) (d' : Db) → R a d' → Q a d')
      → Succeeds Q r
  weaken-Succeeds R Q (ok a, c) s k = (s.0, k a c.db s.1)
  weaken-Succeeds R Q (err e, c) s k = absurd s

  pub Works-weaken :
      (m : M A) (d : Db) (R Q : A → Db → Type 0)
      → Works m d R
      → ((a : A) (d' : Db) → R a d' → Q a d')
      → Works m d Q
  unfolding Works
  Works-weaken m d R Q h k c p r = weaken-Succeeds R Q (m c) (h c p r) k

module _ {A B : Type 0} where
  pub Works-query :
      (read : Db → A) (f : A → M B) (d : Db) (Q : B → Db → Type 0)
      → Works (f (read d)) d Q
      → Works (query read >>= f) d Q
  unfolding Works query ◌>>=◌
  Works-query read f d Q h c p r =
      rw r (subst (λ x. Works (f (read x)) x Q) (sym p) h (record c { replies = [] }) refl refl)

  pub Works-exec :
      (blocked : Error) (report : Db → A) (write : Db → Db) (f : A → M B) (d : Db)
      (Q : B → Db → Type 0)
      → Works (f (report d)) (write d) Q
      → Works (exec_or blocked report write >>= f) d Q
  unfolding Works exec_or ◌>>=◌
  Works-exec blocked report write f d Q h c p r = rw r (
      subst (λ x. Works (f (report x)) (write x) Q) (sym p) h
        (record c { db = write c.db; replies = [] }) refl refl)

  bound :
      (R : A → Db → Type 0) (Q : B → Db → Type 0) (r : Result A × Conn) (f : A → M B)
      → Succeeds R r
      → ((a : A) (c : Conn) → c.replies ≡ [] → R a c.db → Succeeds Q (f a c))
      → Succeeds Q (continue r f)
  bound R Q (ok a, c) f s k = k a c s.0 s.1
  bound R Q (err e, c) f s k = absurd s

  pub Works-bind :
      (m : M A) (f : A → M B) (d : Db) (R : A → Db → Type 0) (Q : B → Db → Type 0)
      → Works m d R
      → ((a : A) (d' : Db) → R a d' → Works (f a) d' Q)
      → Works (m >>= f) d Q
  unfolding Works ◌>>=◌
  Works-bind m f d R Q h k c p r = bound R Q (m c) f (h c p r) (λ a c' i q. k a c'.db q c' refl i)

-- The last write of a chain.
pub Works-exec_last :
    {A : Type 0} (blocked : Error) (report : Db → A) (write : Db → Db) (d : Db)
    (Q : A → Db → Type 0)
    → Q (report d) (write d)
    → Works (exec_or blocked report write) d Q
unfolding Works exec_or
Works-exec_last blocked report write d Q q c p r =
    rw r (refl, subst (λ x. Q (report x) (write x)) (sym p) q)

pub Works-refuse_if :
    (b : Bool) (e : Error) (d : Db) → b ≡ false → Works (refuse_if b e) d (λ _ d'. d' ≡ d)
unfolding Works refuse_if
Works-refuse_if true e d f c p r = absurd (false≢true (sym f))
Works-refuse_if false e d f c p r = (r, p)

-- A step that only checks.
pub Works-step :
    {B : Type 0} (m : M (Unit {0})) (k : M B) (d : Db) (Q : B → Db → Type 0)
    → Works m d (λ _ d'. d' ≡ d)
    → Works k d Q
    → Works (m >> k) d Q
unfolding ◌>>◌
Works-step m k d Q h w =
    Works-bind _ _ d (λ _ d'. d' ≡ d) Q h (λ _ d' e. subst (λ x. Works k x Q) (sym e) w)

-- A step that finds a known value.
pub Works-read :
    {A B : Type 0} (m : M A) (a : A) (f : A → M B) (d : Db) (Q : B → Db → Type 0)
    → Works m d (λ v d'. (d' ≡ d) × (v ≡ a))
    → Works (f a) d Q
    → Works (m >>= f) d Q
Works-read m a f d Q h w =
    Works-bind _ _ d (λ v d'. (d' ≡ d) × (v ≡ a)) Q h
      (λ v d' e. subst (λ x. Works (f v) x Q) (sym e.0) (subst (λ y. Works (f y) d Q) (sym e.1) w))
