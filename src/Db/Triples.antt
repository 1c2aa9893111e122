-- ===== src/Db/Triples.antt =====
-- How steps on the handle are reasoned about: `Runs m d Q` says that if `m` succeeds from database `d`,
-- its value and the database it leaves meet `Q`; `Atomic m` says that an error leaves the database alone.
use leadflow_v3_server.Base.{if◌then◌else◌, Bool, true, false, ◌≡◌, refl, ap, sym, subst}
use leadflow_v3_server.Db.{Db, Conn, Reply}
use leadflow_v3_server.Db.Reply.{fine, failed, restricted}
use leadflow_v3_server.Db.Statements.{
  Error, database, Result, ok, err, M, pure, fail, ◌>>=◌, ◌>>◌, refuse_if, query, exec_or, transact,
  continue, answered, next_reply, later, ended, begun,
}

abbrev pub OnOk : {A : Type 0} → (A → Db → Type 0) → Result A × Conn → Type 0
OnOk Q (ok a, c) = Q a c.db
OnOk Q (err e, c) = Unit

abbrev pub OnErr : {A : Type 0} → Db → Result A × Conn → Type 0
OnErr d (ok a, c) = Unit
OnErr d (err e, c) = c.db ≡ d

unfoldable pub Runs : {A : Type 0} → M A → Db → (A → Db → Type 0) → Type 0
Runs m d Q = (c : Conn) → c.db ≡ d → OnOk Q (m c)

unfoldable pub Atomic : {A : Type 0} → M A → Type 0
Atomic m = (c : Conn) → OnErr c.db (m c)

module _ {A : Type 0} where
  pub Runs-pure : (a : A) (d : Db) (Q : A → Db → Type 0) → Q a d → Runs (pure a) d Q
  unfolding Runs
  Runs-pure a d Q q c e = subst (Q a) (sym e) q

  pub Runs-fail : (e : Error) (d : Db) (Q : A → Db → Type 0) → Runs (fail e) d Q
  unfolding Runs
  Runs-fail e d Q c p = tt

  pub Runs-refuse :
      (b : Bool) (e : Error) (k : M A) (d : Db) (Q : A → Db → Type 0)
      → (b ≡ false → Runs k d Q)
      → Runs (refuse_if b e >> k) d Q
  unfolding Runs refuse_if ◌>>◌
  Runs-refuse true e k d Q h c p = tt
  Runs-refuse false e k d Q h c p = h refl c p

  answered-OnOk :
      (Q : A → Db → Type 0) (b : Error) (r : Reply) (a : A) (c c' : Conn)
      → Q a c.db
      → OnOk Q (answered b r a c c')
  answered-OnOk Q b fine a c c' q = q
  answered-OnOk Q b failed a c c' q = tt
  answered-OnOk Q b restricted a c c' q = tt

  ended-OnOk : (d : Db) (Q : A → Db → Type 0) (r : Result A × Conn) → OnOk Q r → OnOk Q (ended d r)
  ended-OnOk d Q (ok a, c) q = answered-OnOk Q database (next_reply c) a (later c) _ q
  ended-OnOk d Q (err e, c) q = tt

  begun-OnOk :
      (Q : A → Db → Type 0) (r : Reply) (c : Conn) (m : M A) → OnOk Q (m c) → OnOk Q (begun r c m)
  begun-OnOk Q fine c m q = ended-OnOk c.db Q (m c) q
  begun-OnOk Q failed c m q = tt
  begun-OnOk Q restricted c m q = tt

  pub Runs-transact : (m : M A) (d : Db) (Q : A → Db → Type 0) → Runs m d Q → Runs (transact m) d Q
  unfolding Runs transact
  Runs-transact m d Q h c p = begun-OnOk Q (next_reply c) (later c) m (h (later c) p)

  answered-OnErr :
      (d : Db) (b : Error) (r : Reply) (a : A) (c c' : Conn)
      → c'.db ≡ d
      → OnErr d (answered b r a c c')
  answered-OnErr d b fine a c c' q = tt
  answered-OnErr d b failed a c c' q = q
  answered-OnErr d b restricted a c c' q = q

  ended-OnErr : (d : Db) (r : Result A × Conn) → OnErr d (ended d r)
  ended-OnErr d (ok a, c) = answered-OnErr d database (next_reply c) a (later c) _ refl
  ended-OnErr d (err e, c) = refl

  begun-OnErr : (r : Reply) (c : Conn) (m : M A) → OnErr c.db (begun r c m)
  begun-OnErr fine c m = ended-OnErr c.db (m c)
  begun-OnErr failed c m = refl
  begun-OnErr restricted c m = refl

  -- A transaction is all or nothing, whatever its body does.
  pub Atomic-transact : (m : M A) → Atomic (transact m)
  unfolding Atomic transact
  Atomic-transact m c = begun-OnErr (next_reply c) (later c) m

  pub Atomic-pure : (a : A) → Atomic (pure a)
  unfolding Atomic
  Atomic-pure a c = tt

  pub Atomic-refuse : (b : Bool) (e : Error) (k : M A) → Atomic k → Atomic (refuse_if b e >> k)
  unfolding Atomic refuse_if ◌>>◌
  Atomic-refuse true e k h c = refl
  Atomic-refuse false e k h c = h c

  weaken-OnOk :
      (R Q : A → Db → Type 0) (r : Result A × Conn)
      → ((a : A) (d' : Db) → R a d' → Q a d')
      → OnOk R r
      → OnOk Q r
  weaken-OnOk R Q (ok a, c) k h = k a c.db h
  weaken-OnOk R Q (err e, c) k h = tt

  pub Runs-weaken :
      (m : M A) (d : Db) (R Q : A → Db → Type 0)
      → Runs m d R
      → ((a : A) (d' : Db) → R a d' → Q a d')
      → Runs m d Q
  unfolding Runs
  Runs-weaken m d R Q h k c p = weaken-OnOk R Q (m c) k (h c p)

pub Atomic-fail : (A : Type 0) (e : Error) → Atomic (fail {A = A} e)
unfolding Atomic
Atomic-fail A e c = refl

module _ {A B : Type 0} where
  continue-OnOk :
      (Q : B → Db → Type 0) (b : Error) (r : Reply) (a : A) (c c' : Conn) (f : A → M B)
      → OnOk Q (f a c)
      → OnOk Q (continue (answered b r a c c') f)
  continue-OnOk Q b fine a c c' f q = q
  continue-OnOk Q b failed a c c' f q = tt
  continue-OnOk Q b restricted a c c' f q = tt

  pub Runs-query :
      (read : Db → A) (f : A → M B) (d : Db) (Q : B → Db → Type 0)
      → Runs (f (read d)) d Q
      → Runs (query read >>= f) d Q
  unfolding Runs query ◌>>=◌
  Runs-query read f d Q h c p =
      continue-OnOk Q database (next_reply c) (read c.db) (later c) (later c) f
        (subst (λ x. Runs (f (read x)) x Q) (sym p) h (later c) refl)

  pub Runs-exec :
      (blocked : Error) (report : Db → A) (write : Db → Db) (f : A → M B) (d : Db)
      (Q : B → Db → Type 0)
      → Runs (f (report d)) (write d) Q
      → Runs (exec_or blocked report write >>= f) d Q
  unfolding Runs exec_or ◌>>=◌
  Runs-exec blocked report write f d Q h c p =
      continue-OnOk Q blocked (next_reply c) (report c.db) (record (later c) { db = write c.db })
        (later c) f
        (subst (λ x. Runs (f (report x)) (write x) Q) (sym p) h
          (record (later c) { db = write c.db }) refl)

  continue-OnErr :
      (b : Error) (r : Reply) (a : A) (c : Conn) (f : A → M B)
      → OnErr c.db (f a c)
      → OnErr c.db (continue (answered b r a c c) f)
  continue-OnErr b fine a c f q = q
  continue-OnErr b failed a c f q = refl
  continue-OnErr b restricted a c f q = refl

  -- A read before an atomic rest.
  pub Atomic-query :
      (read : Db → A) (f : A → M B) → ((a : A) → Atomic (f a)) → Atomic (query read >>= f)
  unfolding Atomic query ◌>>=◌
  Atomic-query read f h c =
      continue-OnErr database (next_reply c) (read c.db) (later c) f (h (read c.db) (later c))

  bound-OnOk :
      (R : A → Db → Type 0) (Q : B → Db → Type 0) (r : Result A × Conn) (f : A → M B)
      → OnOk R r
      → ((a : A) (c : Conn) → R a c.db → OnOk Q (f a c))
      → OnOk Q (continue r f)
  bound-OnOk R Q (ok a, c) f h k = k a c h
  bound-OnOk R Q (err e, c) f h k = tt

  -- The rule for a step with a postcondition of its own.
  pub Runs-bind :
      (m : M A) (f : A → M B) (d : Db) (R : A → Db → Type 0) (Q : B → Db → Type 0)
      → Runs m d R
      → ((a : A) (d' : Db) → R a d' → Runs (f a) d' Q)
      → Runs (m >>= f) d Q
  unfolding Runs ◌>>=◌
  Runs-bind m f d R Q h k c p = bound-OnOk R Q (m c) f (h c p) (λ a c' q. k a c'.db q c' refl)

  -- The rule for a step that reads: the rest starts from the same database.
  pub Runs-read :
      (m : M A) (f : A → M B) (d : Db) (V : A → Type 0) (Q : B → Db → Type 0)
      → Runs m d (λ a d'. (d' ≡ d) × V a)
      → ((a : A) → V a → Runs (f a) d Q)
      → Runs (m >>= f) d Q
  Runs-read m f d V Q h k =
      Runs-bind m f d (λ a d'. (d' ≡ d) × V a) Q h
        (λ a d' q. subst (λ x. Runs (f a) x Q) (sym q.0) (k a q.1))

  bound-OnErr :
      (c : Conn) (r : Result A × Conn) (f : A → M B)
      → r.1.db ≡ c.db
      → ((a : A) (c' : Conn) → OnErr c'.db (f a c'))
      → OnErr c.db (continue r f)
  bound-OnErr c (ok a, c') f h k = subst (λ x. OnErr x (f a c')) h (k a c')
  bound-OnErr c (err e, c') f h k = h

  -- A step that never writes, before an atomic rest.
  pub Atomic-read :
      (m : M A) (f : A → M B)
      → ((c : Conn) → (m c).1.db ≡ c.db)
      → ((a : A) → Atomic (f a))
      → Atomic (m >>= f)
  unfolding Atomic ◌>>=◌
  Atomic-read m f h k c = bound-OnErr c (m c) f (h c) k

-- A guard alone.
pub Runs-refuse_if :
    (b : Bool) (e : Error) (d : Db) → Runs (refuse_if b e) d (λ _ d'. (d' ≡ d) × (b ≡ false))
unfolding Runs refuse_if
Runs-refuse_if true e d c p = tt
Runs-refuse_if false e d c p = (p, refl)

-- The last write of a chain, whose value is the result.
pub Runs-exec_last :
    {A : Type 0} (blocked : Error) (report : Db → A) (write : Db → Db) (d : Db)
    → Runs (exec_or blocked report write) d (λ a d'. (d' ≡ write d) × (a ≡ report d))
unfolding Runs exec_or
Runs-exec_last {A} blocked report write d c p =
    answered-OnOk {A = A} (λ a d'. (d' ≡ write d) × (a ≡ report d)) blocked (next_reply c)
      (report c.db) (record (later c) { db = write c.db }) (later c) (ap write p, ap report p)

module _ {A : Type 0} where
  pub Runs-if :
      (b : Bool) (m n : M A) (d : Db) (Q : A → Db → Type 0)
      → (b ≡ true → Runs m d Q)
      → (b ≡ false → Runs n d Q)
      → Runs (if b then m else n) d Q
  Runs-if true m n d Q h k = h refl
  Runs-if false m n d Q h k = k refl

  pub Atomic-if : (b : Bool) (m n : M A) → Atomic m → Atomic n → Atomic (if b then m else n)
  Atomic-if true m n h k = h
  Atomic-if false m n h k = k

-- A read at the end of a chain.
pub Runs-query_last :
    {A : Type 0} (read : Db → A) (d : Db) (Q : A → Db → Type 0)
    → Q (read d) d
    → Runs (query read) d Q
unfolding Runs query
Runs-query_last {A} read d Q q c p =
    answered-OnOk {A = A} Q database (next_reply c) (read c.db) (later c) (later c)
      (subst (λ x. Q (read x) x) (sym p) q)

-- A step whose value is dropped.
pub Runs-then :
    {B : Type 0} (m : M (Unit {0})) (k : M B) (d : Db) (I : Db → Type 0) (Q : B → Db → Type 0)
    → Runs m d (λ _. I)
    → ((d' : Db) → I d' → Runs k d' Q)
    → Runs (m >> k) d Q
unfolding ◌>>◌
Runs-then m k d I Q h g = Runs-bind m (λ _. k) d (λ _. I) Q h (λ _ d' i. g d' i)
