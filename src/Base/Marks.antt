-- ===== src/Base/Marks.antt =====
-- For the tests: numbers printed as that many marks.
use Prim.Native.Nat.{ℕ, zero, suc}
use Prim.Native.String.{String}
use mathlib.Core.Path.{◌≡◌, refl, ap}
use cluster_api_provider_tar.Base.Text.{trim_left, trim_right, trim_space, is_space}

abbrev pub marks : ℕ → String
marks zero = String.[]
marks (suc n) = String.◌∷◌ "x" (marks n)

abbrev pub count_marks : String → ℕ
count_marks String.[] = zero
count_marks (String.◌∷◌ c s) = suc (count_marks s)

trim_right-marks : (n : ℕ) → trim_right (marks n) ≡ marks n
unfolding trim_right is_space
trim_right-marks zero = refl
trim_right-marks (suc zero) = refl
trim_right-marks (suc (suc n)) = rw (trim_right-marks (suc n)) refl

trim_left-marks : (n : ℕ) → trim_left (marks n) ≡ marks n
unfolding trim_left is_space
trim_left-marks zero = refl
trim_left-marks (suc n) = refl

pub trim_space-marks : (n : ℕ) → trim_space (marks n) ≡ marks n
unfolding trim_space
trim_space-marks n = rw (trim_left-marks n) (trim_right-marks n)

pub count_marks-marks : (n : ℕ) → count_marks (marks n) ≡ n
count_marks-marks zero = refl
count_marks-marks (suc n) = ap suc (count_marks-marks n)
