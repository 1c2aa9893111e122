-- ===== src/Leads/Assign/Steps.antt =====
-- assign.go: rules for a statement whose error is told in other words, or passed over.
use leadflow_v3_server.Base.{Option, none, sym, subst}
use leadflow_v3_server.Db.{Db, Conn, Reply}
use leadflow_v3_server.Db.Reply.{fine, failed, restricted}
use leadflow_v3_server.Db.Statements.{
  Error, database, Result, ok, err, M, query, next_reply, later, answered,
}
use leadflow_v3_server.Db.Triples.{OnOk, Runs}
use leadflow_v3_server.Db.Outcomes.{Leaves}
use leadflow_v3_server.Leads.Assign.{attempt, retell, tried, retold}

module _ {A : Type 0} where
  retold-OnOk :
      (Q : A → Db → Type 0) (e : Error) (r : Result A × Conn) → OnOk Q r → OnOk Q (retold e r)
  retold-OnOk Q e (ok a, c) h = h
  retold-OnOk Q e (err x, c) h = tt

  pub Runs-retell :
      (e : Error) (m : M A) (d : Db) (Q : A → Db → Type 0) → Runs m d Q → Runs (retell e m) d Q
  unfolding Runs retell
  Runs-retell e m d Q h c p = retold-OnOk Q e (m c) (h c p)

  retold-db : (I : Db → Type 0) (e : Error) (r : Result A × Conn) → I r.1.db → I (retold e r).1.db
  retold-db I e (ok a, c) h = h
  retold-db I e (err x, c) h = h

  pub Leaves-retell :
      (I : Db → Type 0) (e : Error) (m : M A) (d : Db) → Leaves m d I → Leaves (retell e m) d I
  unfolding Leaves retell
  Leaves-retell I e m d h c p = retold-db I e (m c) (h c p)

  tried-db : (I : Db → Type 0) (r : Result (Option A) × Conn) → I r.1.db → I (tried r).1.db
  tried-db I (ok a, c) h = h
  tried-db I (err x, c) h = h

  pub Leaves-attempt :
      (I : Db → Type 0) (m : M (Option A)) (d : Db) → Leaves m d I → Leaves (attempt m) d I
  unfolding Leaves attempt
  Leaves-attempt I m d h c p = tried-db I (m c) (h c p)

  tried-OnOk :
      (Q : Option A → Db → Type 0) (r : Reply) (o : Option A) (c : Conn)
      → Q o c.db
      → Q none c.db
      → OnOk Q (tried (answered database r o c c))
  tried-OnOk Q fine o c h k = h
  tried-OnOk Q failed o c h k = k
  tried-OnOk Q restricted o c h k = k

  -- A read whose failure counts as finding nothing.
  pub Runs-attempt_query :
      (read : Db → Option A) (d : Db) (Q : Option A → Db → Type 0)
      → Q (read d) d
      → Q none d
      → Runs (attempt (query read)) d Q
  unfolding Runs attempt query
  Runs-attempt_query read d Q h k c p =
      tried-OnOk Q (next_reply c) (read c.db) (later c) (subst (λ x. Q (read x) x) (sym p) h)
        (subst (Q none) (sym p) k)
