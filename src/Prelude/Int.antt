-- ===== src/Prelude/Int.antt =====
-- Signed integers, of which the modelled code tests only the sign.
use Prim.Native.Nat.{ℕ, zero, suc, ◌-◌}
use grafted_keys.Prelude.Tests.{if◌then◌else◌, ltb}
use mathlib.Core.Option.{Option, none, some}

-- `negsuc n` is -(n + 1).
pub data ℤ : Type 0 where
  pos : ℕ → ℤ
  negsuc : ℕ → ℤ

-- A value that was parsed and is at least 1.
abbrev pub positive : Option ℤ → Option ℕ
positive none = none
positive (some (pos zero)) = none
positive (some (pos (suc n))) = some (suc n)
positive (some (negsuc n)) = none

-- `a - b`
abbrev pub difference : ℕ → ℕ → ℤ
difference a b = if ltb a b then negsuc (b - a - 1) else pos (a - b)
