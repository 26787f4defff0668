-- ===== src/Prelude/Int.antt =====
-- Python's integers where a sign matters, over the native numbers.
use Prim.Native.Nat.{ℕ, suc, ◌+◌, ◌-◌}
use mathlib.Core.Path.{◌≡◌}
use mathlib.Core.Bool.{Bool}
use native.Mathlib.Omega.{arith}
use evidence_control_plane.Prelude.Tests.{leb, if◌then◌else◌}
use evidence_control_plane.Prelude.Equality.{nat_beq}

-- `negsuc n` is -(n + 1).
pub data ℤ : Type 0 where
  pos : ℕ → ℤ
  negsuc : ℕ → ℤ

abbrev pub pos_part : ℤ → ℕ
pos_part (pos n) = n
pos_part (negsuc n) = 0

abbrev pub neg_part : ℤ → ℕ
neg_part (pos n) = 0
neg_part (negsuc n) = suc n

-- a - b, as an integer.
abbrev pub sub_ℕ : ℕ → ℕ → ℤ
sub_ℕ a b = if leb b a then pos (a - b) else negsuc (b - a - 1)

-- `abs`
abbrev pub abs : ℤ → ℕ
abs z = pos_part z + neg_part z

abbrev pub int_beq : ℤ → ℤ → Bool
int_beq a b = nat_beq (pos_part a + neg_part b) (pos_part b + neg_part a)

pub int_beq→eq : (a b : ℤ) → int_beq a b ≡ Bool.true → a ≡ b
int_beq→eq a b h = ground arith

pub int_beq_refl : (a : ℤ) → int_beq a a ≡ Bool.true
int_beq_refl a = ground arith
