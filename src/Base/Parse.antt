-- ===== src/Base/Parse.antt =====
-- `strconv.ParseUint` and `strconv.ParseInt` in base 10.
use Prim.Native.String.{◌++◌}
use Prim.Native.String.append
use Prim.Native.Char.{code}
use cluster_api_provider_tar.Base.{
  ℕ, zero, suc, String, ◌+◌, ◌-◌, ◌*◌, ◌/◌, ◌%◌, ◌^◌, ◌≤◌, ◌<◌, ◌≡◌, refl, ap, ◌∙◌, Bool, true,
  false, ◌&&◌, Option, none, some, arith, ltb, leb, if◌then◌else◌, ◌==◌, comparable_nat, Bool-cases,
  inl, inr, ltb→lt,
}
use cluster_api_provider_tar.Base.Int.{ℤ, pos, sub_ℕ}
use cluster_api_provider_tar.Base.Format.{format_nat, digit, format_digits}

is_digit : ℕ → Bool
is_digit c = leb 48 c && leb c 57

-- The digits are read from the left; `read` is the value so far.
unfoldable pub parse_digits : ℕ → String → Option ℕ
unfolding is_digit
parse_digits read String.[] = some read
parse_digits read (String.◌∷◌ c s) =
    let rest = parse_digits (read * 10 + (code c - 48)) s in
    if is_digit (code c) then rest else none

abbrev pub below : ℕ → Option ℕ → Option ℕ
below bound none = none
below bound (some n) = if ltb n bound then some n else none

-- `strconv.ParseUint(s, 10, 64)`.
unfoldable pub parse_uint64 : String → Option ℕ
parse_uint64 String.[] = none
parse_uint64 (String.◌∷◌ c s) = below (2 ^ 64) (parse_digits 0 (String.◌∷◌ c s))

abbrev non_empty_digits : String → Option ℕ
non_empty_digits String.[] = none
non_empty_digits (String.◌∷◌ c s) = parse_digits 0 (String.◌∷◌ c s)

abbrev as_pos : Option ℕ → Option ℤ
as_pos none = none
as_pos (some n) = some (pos n)

abbrev as_neg : Option ℕ → Option ℤ
as_neg none = none
as_neg (some n) = some (sub_ℕ 0 n)

-- `strconv.ParseInt(s, 10, 32)`, with an optional sign.
unfoldable pub parse_int32 : String → Option ℤ
parse_int32 String.[] = none
parse_int32 (String.◌∷◌ c s) =
    if code c == 43
    then as_pos (below (2 ^ 31) (non_empty_digits s))
    else if code c == 45
    then as_neg (below (2 ^ 31 + 1) (non_empty_digits s))
    else as_pos (below (2 ^ 31) (parse_digits 0 (String.◌∷◌ c s)))

abbrev and_then : Option ℕ → (ℕ → Option ℕ) → Option ℕ
and_then none next = none
and_then (some n) next = next n

parse_digits-++ :
    (n : ℕ) (s t : String)
    → parse_digits n (s ++ t) ≡ and_then (parse_digits n s) (λ m. parse_digits m t)
unfolding parse_digits
parse_digits-++ n String.[] t = ap (parse_digits n) (append.nil t)
parse_digits-++ n (String.◌∷◌ c s) t =
    ap (parse_digits n) (append.cons c s t) ∙ (elim (Bool-cases (is_digit (code c))) [
      | inl e ↦ rw e (parse_digits-++ (n * 10 + (code c - 48)) s t)
      | inr e ↦ rw e refl
    ])

parse_digits-digit : (n d : ℕ) → d < 10 → parse_digits n (digit d) ≡ some (n * 10 + d)
unfolding parse_digits digit
parse_digits-digit n zero h = refl
parse_digits-digit n (suc zero) h = refl
parse_digits-digit n (suc (suc zero)) h = refl
parse_digits-digit n (suc (suc (suc zero))) h = refl
parse_digits-digit n (suc (suc (suc (suc zero)))) h = refl
parse_digits-digit n (suc (suc (suc (suc (suc zero))))) h = refl
parse_digits-digit n (suc (suc (suc (suc (suc (suc zero)))))) h = refl
parse_digits-digit n (suc (suc (suc (suc (suc (suc (suc zero))))))) h = refl
parse_digits-digit n (suc (suc (suc (suc (suc (suc (suc (suc zero)))))))) h = refl
parse_digits-digit n (suc (suc (suc (suc (suc (suc (suc (suc (suc zero))))))))) h = refl
parse_digits-digit n (suc (suc (suc (suc (suc (suc (suc (suc (suc (suc d)))))))))) h =
    absurd (omega arith)

not_small : (n : ℕ) → ltb n 10 ≡ false → 10 ≤ n
not_small n h = ground arith

smaller : (n f : ℕ) → n < suc f → 10 ≤ n → n / 10 < f
smaller n f h k = omega arith

parse_digits-format_digits : (f n : ℕ) → n < f → parse_digits 0 (format_digits f n) ≡ some n
unfolding format_digits
parse_digits-format_digits zero n h = absurd (omega arith)
parse_digits-format_digits (suc f) n h = elim (Bool-cases (ltb n 10)) [
  | inl e ↦ rw e (parse_digits-digit 0 n (ltb→lt n 10 e) ∙ ground arith)
  | inr e ↦ rw e (
      parse_digits-++ 0 (format_digits f (n / 10)) (digit (n % 10))
      ∙ ap (λ o. and_then o (λ m. parse_digits m (digit (n % 10))))
          (parse_digits-format_digits f (n / 10) (smaller n f h (not_small n e)))
      ∙ parse_digits-digit (n / 10) (n % 10) (omega arith)
      ∙ ap some (omega arith))
]

abbrev is_cons : String → Bool
is_cons String.[] = false
is_cons (String.◌∷◌ c s) = true

is_cons-++ : (s t : String) → is_cons t ≡ true → is_cons (s ++ t) ≡ true
is_cons-++ String.[] t h = ap is_cons (append.nil t) ∙ h
is_cons-++ (String.◌∷◌ c s) t h = ap is_cons (append.cons c s t)

is_cons-digit : (d : ℕ) → d < 10 → is_cons (digit d) ≡ true
unfolding digit
is_cons-digit zero h = refl
is_cons-digit (suc zero) h = refl
is_cons-digit (suc (suc zero)) h = refl
is_cons-digit (suc (suc (suc zero))) h = refl
is_cons-digit (suc (suc (suc (suc zero)))) h = refl
is_cons-digit (suc (suc (suc (suc (suc zero))))) h = refl
is_cons-digit (suc (suc (suc (suc (suc (suc zero)))))) h = refl
is_cons-digit (suc (suc (suc (suc (suc (suc (suc zero))))))) h = refl
is_cons-digit (suc (suc (suc (suc (suc (suc (suc (suc zero)))))))) h = refl
is_cons-digit (suc (suc (suc (suc (suc (suc (suc (suc (suc zero))))))))) h = refl
is_cons-digit (suc (suc (suc (suc (suc (suc (suc (suc (suc (suc d)))))))))) h = absurd (omega arith)

is_cons-format_nat : (n : ℕ) → is_cons (format_nat n) ≡ true
unfolding format_nat format_digits
is_cons-format_nat n = elim (Bool-cases (ltb n 10)) [
  | inl e ↦ rw e (is_cons-digit n (ltb→lt n 10 e))
  | inr e ↦ rw e (
      is_cons-++ (format_digits n (n / 10)) (digit (n % 10)) (is_cons-digit (n % 10) (omega arith)))
]

parse_uint64_lem :
    (s : String) (n : ℕ)
    → is_cons s ≡ true
    → parse_digits 0 s ≡ some n
    → n < 2 ^ 64
    → parse_uint64 s ≡ some n
unfolding parse_uint64
parse_uint64_lem String.[] n c h b = cc
parse_uint64_lem (String.◌∷◌ x s) n c h b = rw h (ground arith)

-- A printed 64-bit number is read back.
pub parse_uint64-format_nat : (n : ℕ) → n < 2 ^ 64 → parse_uint64 (format_nat n) ≡ some n
unfolding format_nat
parse_uint64-format_nat n h =
    parse_uint64_lem (format_nat n) n (is_cons-format_nat n)
      (parse_digits-format_digits (suc n) n (omega arith)) h
