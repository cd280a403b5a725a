-- ===== src/Base/Int.antt =====
-- Go's signed integers, as far as counts and comparisons go: no value here comes near a bound.
use cluster_api_provider_tar.Base.{not, ◌&&◌}
use Prim.Native.Nat.{ℕ, suc, ◌+◌, ◌-◌, ◌/◌}
use mathlib.Core.Bool.{Bool}
use cluster_api_provider_tar.Base.Tests.{ltb, leb, if◌then◌else◌}

-- `negsuc n` is -(n + 1).
pub data ℤ : Type 0 where
  pos : ℕ → ℤ
  negsuc : ℕ → ℤ

abbrev pub pos_part : ℤ → ℕ
pos_part (pos n) = n
pos_part (negsuc n) = 0

abbrev pub neg_part : ℤ → ℕ
neg_part (pos n) = 0
neg_part (negsuc n) = suc n

-- a - b, as an integer.
abbrev pub sub_ℕ : ℕ → ℕ → ℤ
sub_ℕ a b = if leb b a then pos (a - b) else negsuc (b - a - 1)

infix 50 ◌<?◌
abbrev pub ◌<?◌ : ℤ → ℤ → Bool
a <? b = ltb (pos_part a + neg_part b) (pos_part b + neg_part a)

abbrev pub same_ℤ : ℤ → ℤ → Bool
same_ℤ a b = not (a <? b) && not (b <? a)

abbrev pub pred_ℤ : ℤ → ℤ
pred_ℤ a = sub_ℕ (pos_part a) (neg_part a + 1)

-- Go's `a / 2 + 1`: the division truncates towards zero.
abbrev pub half_plus_one : ℤ → ℤ
half_plus_one (pos n) = pos (n / 2 + 1)
half_plus_one (negsuc n) = sub_ℕ 1 (suc n / 2)
