-- ===== src/Leads/Conditions/Parts.antt =====
-- leads.go: how a WHERE clause and its argument are appended.
use leadflow_v3_server.Base.{ℕ, ◌-◌, String, List, [], ◌∷◌, ◌++◌, length, map}

-- A value that is handed to PostgreSQL.
pub data Arg : Type 0 where
  str : List ℕ → Arg
  moment : ℕ → Arg
  nothing : Arg

pub data Piece : Type 0 where
  text : String → Piece
  arg : ℕ → Piece

-- What one step appends: some arguments, then a clause.
pub record Condition : Type 0 where
  pub args : List Arg
  pub clause : List Piece

-- A piece whose placeholder is written out.
pub data Word : Type 0 where
  sql : String → Word
  placeholder : ℕ → Word

abbrev pub written : ℕ → Piece → Word
written n (text s) = sql s
written n (arg k) = placeholder (n - k)

-- `*where` and `*args`
pub record Built : Type 0 where
  pub conditions : List (List Word)
  pub args : List Arg

unfoldable pub append_condition : Built → Condition → Built
append_condition b c =
    let args = b.args ++ c.args in
    record { conditions = b.conditions ++ map (written (length args)) c.clause ∷ []; args = args }

unfoldable pub append_conditions : Built → List Condition → Built
unfolding append_condition
append_conditions b [] = b
append_conditions b (c ∷ cs) = append_conditions (append_condition b c) cs

-- A clause with no argument, and one with a single argument.
abbrev pub plain : String → Condition
plain s = record { args = []; clause = text s ∷ [] }

abbrev pub with_arg : Arg → List Piece → Condition
with_arg v clause = record { args = v ∷ []; clause = clause }
