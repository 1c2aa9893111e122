-- ===== src/Db/Outcomes.antt =====
-- `Leaves m d I`: run from database `d`, the step leaves a database that meets `I`, whether it succeeds or
-- not and whatever the server answers.
use leadflow_v3_server.Base.{if◌then◌else◌, Bool, true, false, ◌≡◌, refl, sym, subst}
use leadflow_v3_server.Db.{Db, Conn, Reply}
use leadflow_v3_server.Db.Reply.{fine, failed, restricted}
use leadflow_v3_server.Db.Statements.{
  Error, database, Result, ok, err, M, pure, fail, ◌>>=◌, ◌>>◌, refuse_if, query, exec_or, transact,
  continue, answered, next_reply, later, ended, begun,
}
use leadflow_v3_server.Db.Triples.{OnOk, Runs}

unfoldable pub Leaves : {A : Type 0} → M A → Db → (Db → Type 0) → Type 0
Leaves m d I = (c : Conn) → c.db ≡ d → I (m c).1.db

pub Leaves-fail :
    (A : Type 0) (I : Db → Type 0) (e : Error) (d : Db) → I d → Leaves (fail {A = A} e) d I
unfolding Leaves
Leaves-fail A I e d h c p = subst I (sym p) h

module _ {A : Type 0} (I : Db → Type 0) where
  pub Leaves-pure : (a : A) (d : Db) → I d → Leaves (pure a) d I
  unfolding Leaves
  Leaves-pure a d h c p = subst I (sym p) h

  pub Leaves-refuse :
      (b : Bool) (e : Error) (k : M A) (d : Db)
      → I d
      → (b ≡ false → Leaves k d I)
      → Leaves (refuse_if b e >> k) d I
  unfolding Leaves refuse_if ◌>>◌
  Leaves-refuse true e k d i h c p = subst I (sym p) i
  Leaves-refuse false e k d i h c p = h refl c p

  pub Leaves-if :
      (b : Bool) (m n : M A) (d : Db)
      → (b ≡ true → Leaves m d I)
      → (b ≡ false → Leaves n d I)
      → Leaves (if b then m else n) d I
  Leaves-if true m n d h k = h refl
  Leaves-if false m n d h k = k refl

  answered-db :
      (b : Error) (r : Reply) (a : A) (c c' : Conn)
      → I c.db
      → I c'.db
      → I (answered b r a c c').1.db
  answered-db b fine a c c' h k = h
  answered-db b failed a c c' h k = k
  answered-db b restricted a c c' h k = k

  ended-db : (d : Db) (r : Result A × Conn) → I d → OnOk (λ _. I) r → I (ended d r).1.db
  ended-db d (ok a, c) i q = answered-db database (next_reply c) a (later c) _ q i
  ended-db d (err e, c) i q = i

  begun-db : (r : Reply) (c : Conn) (m : M A) → I c.db → OnOk (λ _. I) (m c) → I (begun r c m).1.db
  begun-db fine c m i q = ended-db c.db (m c) i q
  begun-db failed c m i q = i
  begun-db restricted c m i q = i

  -- A transaction is rolled back, or has run to its end.
  pub Leaves-transact : (m : M A) (d : Db) → I d → Runs m d (λ _. I) → Leaves (transact m) d I
  unfolding Leaves Runs transact
  Leaves-transact m d i h c p =
      begun-db (next_reply c) (later c) m (subst I (sym p) i) (h (later c) p)

  pub Leaves-query_last : (read : Db → A) (d : Db) → I d → Leaves (query read) d I
  unfolding Leaves query
  Leaves-query_last read d i c p =
      answered-db database (next_reply c) (read c.db) (later c) (later c) (subst I (sym p) i)
        (subst I (sym p) i)

  pub Leaves-exec_last :
      (blocked : Error) (report : Db → A) (write : Db → Db) (d : Db)
      → I d
      → I (write d)
      → Leaves (exec_or blocked report write) d I
  unfolding Leaves exec_or
  Leaves-exec_last blocked report write d i j c p =
      answered-db blocked (next_reply c) (report c.db) (record (later c) { db = write c.db })
        (later c) (subst (λ x. I (write x)) (sym p) j) (subst I (sym p) i)

module _ {A B : Type 0} (I : Db → Type 0) where
  bound-db :
      (r : Result A × Conn) (f : A → M B)
      → I r.1.db
      → ((a : A) (c : Conn) → I c.db → I (f a c).1.db)
      → I (continue r f).1.db
  bound-db (ok a, c) f h k = k a c h
  bound-db (err e, c) f h k = h

  pub Leaves-bind :
      (m : M A) (f : A → M B) (d : Db)
      → Leaves m d I
      → ((a : A) (d' : Db) → I d' → Leaves (f a) d' I)
      → Leaves (m >>= f) d I
  unfolding Leaves ◌>>=◌
  Leaves-bind m f d h k c p = bound-db (m c) f (h c p) (λ a c' q. k a c'.db q c' refl)

  -- A step that only reads, with what is known of its value.
  read-db :
      (V : A → Type 0) (d : Db) (r : Result A × Conn) (f : A → M B)
      → I d
      → r.1.db ≡ d
      → OnOk (λ a d'. V a) r
      → ((a : A) (c : Conn) → c.db ≡ d → V a → I (f a c).1.db)
      → I (continue r f).1.db
  read-db V d (ok a, c) f i e q k = k a c e q
  read-db V d (err x, c) f i e q k = subst I (sym e) i

  pub Leaves-read :
      (m : M A) (f : A → M B) (d : Db) (V : A → Type 0)
      → I d
      → Leaves m d (λ d'. d' ≡ d)
      → Runs m d (λ a d'. V a)
      → ((a : A) → V a → Leaves (f a) d I)
      → Leaves (m >>= f) d I
  unfolding Leaves Runs ◌>>=◌
  Leaves-read m f d V i e v k c p = read-db V d (m c) f i (e c p) (v c p) (λ a c' q w. k a w c' q)

  pub Leaves-query :
      (read : Db → A) (f : A → M B) (d : Db)
      → I d
      → Leaves (f (read d)) d I
      → Leaves (query read >>= f) d I
  unfolding Leaves query ◌>>=◌
  Leaves-query read f d i h c p =
      asked (next_reply c) (later c) p (subst (λ x. Leaves (f (read x)) d I) (sym p) h)
    where
      asked :
          (r : Reply) (c' : Conn)
          → c'.db ≡ d
          → Leaves (f (read c.db)) d I
          → I (continue (answered database r (read c.db) c' c') f).1.db
      asked fine c' q g = g c' q
      asked failed c' q g = subst I (sym q) i
      asked restricted c' q g = subst I (sym q) i

-- A step whose value is dropped.
pub Leaves-then :
    {B : Type 0} (I : Db → Type 0) (m : M (Unit {0})) (k : M B) (d : Db)
    → Leaves m d I
    → ((d' : Db) → I d' → Leaves k d' I)
    → Leaves (m >> k) d I
unfolding ◌>>◌
Leaves-then I m k d h g = Leaves-bind I m (λ _. k) d h (λ _ d' i. g d' i)
