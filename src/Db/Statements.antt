-- ===== src/Db/Statements.antt =====
-- Calls of pgx as steps on the handle: one `query` or `exec` is one statement, and `transact` is the
-- pattern `tx.Begin`, `defer tx.Rollback`, body, `tx.Commit`.
use leadflow_v3_server.Base.{String, Bool, true, false, [], ◌∷◌}
use leadflow_v3_server.Db.{Db, Conn, Reply}
use leadflow_v3_server.Db.Reply.{fine, failed, restricted}

-- The errors of users.go by their variables; other messages by their text.
pub data Error : Type 0 where
  user_not_found cannot_delete_self cannot_deactivate_self last_superadmin : Error
  last_active_superadmin delete_blocked not_sales_executive same_team team_not_found : Error
  team_conflict transfer_forbidden not_lead_analyst same_analyst_team analyst_team_not_found : Error
  session_id_required : Error
  message : String → Error
  database : Error

pub data Result {ℓ} (A : Type ℓ) : Type ℓ where
  ok : A → Result A
  err : Error → Result A

abbrev pub M : Type 0 → Type 0
M A = Conn → Result A × Conn

abbrev pub pure : {A : Type 0} → A → M A
pure a c = (ok a, c)

abbrev pub fail : {A : Type 0} → Error → M A
fail e c = (err e, c)

abbrev pub continue : {A B : Type 0} → Result A × Conn → (A → M B) → Result B × Conn
continue (ok a, c) f = f a c
continue (err e, c) f = (err e, c)

infixr 5 ◌>>=◌ ◌>>◌
unfoldable pub ◌>>=◌ : {A B : Type 0} → M A → (A → M B) → M B
◌>>=◌ m f c = continue (m c) f

unfoldable pub ◌>>◌ : {B : Type 0} → M (Unit {0}) → M B → M B
unfolding ◌>>=◌
m >> k = m >>= λ _. k

abbrev pub stopped_if : Bool → Error → Conn → Result (Unit {0}) × Conn
stopped_if true e c = (err e, c)
stopped_if false e c = (ok tt, c)

-- `if cond { return err }`
unfoldable pub refuse_if : Bool → Error → M (Unit {0})
refuse_if b e c = stopped_if b e c

abbrev pub next_reply : Conn → Reply
next_reply c = elim c.replies [ [] ↦ fine | r ∷ rs ↦ r ]

abbrev pub later : Conn → Conn
later c = record c { replies = elim c.replies [ [] ↦ [] | r ∷ rs ↦ rs ] }

-- What a statement does on each answer: a value and the handle, or an error.
abbrev pub answered : {A : Type 0} → Error → Reply → A → Conn → Conn → Result A × Conn
answered blocked fine a written c = (ok a, written)
answered blocked failed a written c = (err database, c)
answered blocked restricted a written c = (err blocked, c)

-- A statement that reads; a scan that fails counts as a statement that fails.
unfoldable pub query : {A : Type 0} → (Db → A) → M A
query read c = answered database (next_reply c) (read c.db) (later c) (later c)

-- A statement that writes, with what it reports, and the error that a foreign key raises.
unfoldable pub exec_or : {A : Type 0} → Error → (Db → A) → (Db → Db) → M A
exec_or blocked report write c =
    answered blocked (next_reply c) (report c.db) (record (later c) { db = write c.db }) (later c)

unfoldable pub exec : {A : Type 0} → (Db → A) → (Db → Db) → M A
unfolding exec_or
exec report write = exec_or database report write

-- Rolled back on an error, and when the commit fails.
abbrev pub ended : {A : Type 0} → Db → Result A × Conn → Result A × Conn
ended before (err e, c) = (err e, record c { db = before })
ended before (ok a, c) =
    answered database (next_reply c) a (later c) (record (later c) { db = before })

abbrev pub begun : {A : Type 0} → Reply → Conn → M A → Result A × Conn
begun fine c m = ended c.db (m c)
begun failed c m = (err database, c)
begun restricted c m = (err database, c)

unfoldable pub transact : {A : Type 0} → M A → M A
transact m c = begun (next_reply c) (later c) m
