-- ===== src/Prelude/Int.antt =====
-- Signed integers over the native numbers, under the library's names: the amounts of money that
-- the program lets fall below zero.
use Prim.Native.Nat.{ℕ, suc, ◌+◌, ◌-◌, ◌*◌}
use mathlib.Core.Path.{◌≡◌}
use native.Mathlib.Omega.{arith}
use gaming_cafe_management.Prelude.Tests.{leb, if◌then◌else◌}

-- `negsuc n` is -(n + 1).
pub data ℤ : Type 0 where
  pos : ℕ → ℤ
  negsuc : ℕ → ℤ

abbrev pub pos_part : ℤ → ℕ
pos_part (pos n) = n
pos_part (negsuc n) = 0

abbrev pub neg_part : ℤ → ℕ
neg_part (pos n) = 0
neg_part (negsuc n) = suc n

abbrev pub sub_ℕ : ℕ → ℕ → ℤ
sub_ℕ a b = if leb b a then pos (a - b) else negsuc (b - a - 1)

infixl 65 ◌+ℤ◌
infixl 70 ◌*ℕ◌
unfoldable pub ◌+ℤ◌ : ℤ → ℤ → ℤ
a +ℤ b = sub_ℕ (pos_part a + pos_part b) (neg_part a + neg_part b)

-- An amount times a quantity.
unfoldable pub ◌*ℕ◌ : ℤ → ℕ → ℤ
a *ℕ n = sub_ℕ (pos_part a * n) (neg_part a * n)

pub +ℤ_assoc : (a b c : ℤ) → a +ℤ b +ℤ c ≡ a +ℤ (b +ℤ c)
unfolding ◌+ℤ◌
+ℤ_assoc a b c = ground arith

pub zero-+ℤ : (a : ℤ) → pos 0 +ℤ a ≡ a
unfolding ◌+ℤ◌
zero-+ℤ a = ground arith
