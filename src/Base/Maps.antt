-- ===== src/Base/Maps.antt =====
-- Go's `map[string]V` as an association list. A key stands in it at most once, since `insert`
-- overwrites; the order of a `range` over the map is the list's.
use Prim.Native.Nat.{suc, ◌≤◌}
use Prim.Native.String.{String}
use mathlib.Core.Path.{◌≡◌, refl}
use mathlib.Core.Option.{Option, none, some}
use mathlib.Core.List.{List, [], ◌∷◌}
use native.Mathlib.Omega.{arith}
use text.Mathlib.Text.{◌==◌}
use text.Mathlib.TextEquality.{eq_iff}
use leadflow_v3_server.Base.Tests.{if◌then◌else◌}
use leadflow_v3_server.Base.Lists.{length}

module _ {ℓ} {V : Type ℓ} where
  unfoldable pub lookup : String → List (String × V) → Option V
  lookup key [] = none
  lookup key ((at, new) ∷ rest) = if at == key then some new else lookup key rest

  unfoldable pub insert : String → V → List (String × V) → List (String × V)
  insert key new [] = (key, new) ∷ []
  insert key new ((at, old) ∷ rest) =
      if at == key then (key, new) ∷ rest else (at, old) ∷ insert key new rest

  unfoldable pub delete : String → List (String × V) → List (String × V)
  delete key [] = []
  delete key ((at, old) ∷ rest) = if at == key then delete key rest else (at, old) ∷ delete key rest

  pub lookup-insert :
      (key at : String) (new : V) (rest : List (String × V))
      → lookup at (insert key new rest) ≡ (if key == at then some new else lookup at rest)
  unfolding lookup insert
  lookup-insert key at new [] = refl
  lookup-insert key at new ((first, old) ∷ rest) =
      ground
        (arith, eq_iff key at, eq_iff first key, eq_iff first at, lookup-insert key at new rest)

  pub lookup-delete :
      (key at : String) (rest : List (String × V))
      → lookup at (delete key rest) ≡ (if key == at then none else lookup at rest)
  unfolding lookup delete
  lookup-delete key at [] = ground arith
  lookup-delete key at ((first, old) ∷ rest) =
      ground (arith, eq_iff key at, eq_iff first key, eq_iff first at, lookup-delete key at rest)

  pub length-insert-le :
      (key : String) (new : V) (rest : List (String × V))
      → length (insert key new rest) ≤ suc (length rest)
  unfolding insert
  length-insert-le key new [] = omega arith
  length-insert-le key new ((at, old) ∷ rest) = ground (arith, length-insert-le key new rest)
