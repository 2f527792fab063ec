-- ===== src/Base/Int.antt =====
-- Signed integers over the native numbers: `int` and `long` values with a sign.
use Prim.Native.Nat.{ℕ, compare, Ordering}
use mathlib.Core.Bool.{Bool, true, false}

-- `negsuc n` is -(n + 1).
pub data ℤ : Type 0 where
  pos : ℕ → ℤ
  negsuc : ℕ → ℤ

infix 50 ◌==ℤ◌
abbrev pub ◌==ℤ◌ : ℤ → ℤ → Bool
pos a ==ℤ pos b = elim (compare a b) [ Ordering.eq ↦ true | _ ↦ false ]
negsuc a ==ℤ negsuc b = elim (compare a b) [ Ordering.eq ↦ true | _ ↦ false ]
pos a ==ℤ negsuc b = false
negsuc a ==ℤ pos b = false

-- `a < 0`
abbrev pub is_negative : ℤ → Bool
is_negative (pos n) = false
is_negative (negsuc n) = true
