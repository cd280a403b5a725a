-- ===== src/Base/Format.antt =====
-- Texts joined, and `strconv.FormatInt` in base 10.
use Prim.Native.Nat.{ℕ, zero, suc, ◌/◌, ◌%◌, ◌<◌}
use Prim.Native.String.{String, ◌++◌}
use mathlib.Core.Path.{◌≡◌, refl}
use mathlib.Core.List.{List, [], ◌∷◌}
use native.Mathlib.Omega.{arith}
use cluster_api_provider_tar.Base.Tests.{ltb, if◌then◌else◌, ◌==◌, comparable_nat}
use cluster_api_provider_tar.Base.Int.{ℤ, pos, negsuc}

-- `a + b + …` on texts.
unfoldable pub concat : List String → String
concat [] = ""
concat (s ∷ ss) = s ++ concat ss

unfoldable pub digit : ℕ → String
digit n =
    if n == 0
    then "0"
    else if n == 1
    then "1"
    else if n == 2
    then "2"
    else if n == 3
    then "3"
    else if n == 4
    then "4"
    else if n == 5
    then "5"
    else if n == 6
    then "6"
    else if n == 7
    then "7"
    else if n == 8
    then "8"
    else "9"

-- A number has fewer digits than its successor has units, so `suc n` rounds are enough.
unfoldable pub format_digits : ℕ → ℕ → String
unfolding digit
format_digits zero n = ""
format_digits (suc f) n =
    let rest = format_digits f (n / 10) in if ltb n 10 then digit n else rest ++ digit (n % 10)

format_digits_enough : (f g n : ℕ) → n < f → n < g → format_digits f n ≡ format_digits g n
unfolding format_digits
format_digits_enough zero g n h k = absurd (omega arith)
format_digits_enough (suc f) zero n h k = absurd (omega arith)
format_digits_enough (suc f) (suc g) n h k = ground (arith, format_digits_enough f g (n / 10))

unfoldable pub format_nat : ℕ → String
unfolding format_digits
format_nat n = format_digits (suc n) n

-- More rounds than `format_nat` takes give the same text.
format_nat_enough : (f n : ℕ) → n < f → format_digits f n ≡ format_nat n
unfolding format_nat
format_nat_enough f n h = format_digits_enough f (suc n) n h (omega arith)

-- `strconv.FormatInt(int64(i), 10)`.
unfoldable pub format_int : ℤ → String
unfolding format_nat
format_int (pos n) = format_nat n
format_int (negsuc n) = "-" ++ format_nat (suc n)

format_int_example : format_int (pos 1024) ≡ "1024"
unfolding format_int
format_int_example = refl
