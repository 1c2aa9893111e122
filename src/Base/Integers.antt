-- ===== src/Base/Integers.antt =====
-- Integers, as the sign and the size that the guards on amounts and scores test. An amount of money
-- (`float64`) is counted in the smallest unit.
use Prim.Native.Nat.{ℕ}
use mathlib.Core.Bool.{Bool, true, false}
use mathlib.Core.Option.{Option, none, some}
use leadflow_v3_server.Base.Tests.{ltb, eqb}

pub data ℤ : Type 0 where
  pos : ℕ → ℤ
  negsuc : ℕ → ℤ

abbrev pub ltb_ℤ : ℤ → ℤ → Bool
ltb_ℤ (pos m) (pos n) = ltb m n
ltb_ℤ (pos m) (negsuc n) = false
ltb_ℤ (negsuc m) (pos n) = true
ltb_ℤ (negsuc m) (negsuc n) = ltb n m

abbrev pub eqb_ℤ : ℤ → ℤ → Bool
eqb_ℤ (pos m) (pos n) = eqb m n
eqb_ℤ (pos m) (negsuc n) = false
eqb_ℤ (negsuc m) (pos n) = false
eqb_ℤ (negsuc m) (negsuc n) = eqb m n

abbrev pub is_negative : ℤ → Bool
is_negative (pos n) = false
is_negative (negsuc n) = true

abbrev pub is_positive : ℤ → Bool
is_positive (pos n) = ltb 0 n
is_positive (negsuc n) = false

-- `x != nil && *x < 0`
abbrev pub given_negative : Option ℤ → Bool
given_negative none = false
given_negative (some x) = is_negative x

-- `x != nil && (*x < 0 || *x > bound)`
abbrev pub given_outside : ℕ → Option ℤ → Bool
given_outside bound none = false
given_outside bound (some (pos n)) = ltb bound n
given_outside bound (some (negsuc n)) = true

-- `x != nil && *x > 0`
abbrev pub given_positive : Option ℤ → Bool
given_positive none = false
given_positive (some x) = is_positive x
