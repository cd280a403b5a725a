-- ===== src/Base/Run.antt =====
-- A run of a controller: the calls that change something outside, in order, and the result. A
-- `do` block goes on after a result and stops at an error.
use cluster_api_provider_tar.Base.{
  ◌≡◌, refl, ◌⊎◌, inl, inr, Bool, true, false, List, [], ◌∷◌, ◌++◌, In,
}
use cluster_api_provider_tar.Base.Result.{Result, ok, err}

pub record Run (C E A : Type 0) : Type 0 where
  pub calls : List C
  pub result : Result E A

-- A result without a call.
abbrev pub just : {C E A : Type 0} → Result E A → Run C E A
just r = record { calls = []; result = r }

-- A call with the answer to it.
abbrev pub call : {C E A : Type 0} → C → Result E A → Run C E A
call c r = record { calls = c ∷ []; result = r }

abbrev pub stop_if : {C E : Type 0} → Bool → E → Run C E (Unit {0})
stop_if true e = just (err e)
stop_if false e = just (ok tt)

In-++ : {C : Type 0} (c : C) (xs ys : List C) → In c (xs ++ ys) → In c xs ⊎ In c ys
In-++ c [] ys i = inr i
In-++ c (x ∷ xs) ys (inl e) = inl (inl e)
In-++ c (x ∷ xs) ys (inr i) = elim (In-++ c xs ys i) [ inl j ↦ inl (inr j) | inr j ↦ inr j ]

module _ {C E A B : Type 0} where
  abbrev go_on : List C → Result E A → (A → Run C E B) → Run C E B
  go_on cs (err e) next = record { calls = cs; result = err e }
  go_on cs (ok a) next = record { calls = cs ++ (next a).calls; result = (next a).result }

  infixl 5 ◌>>=◌
  abbrev pub ◌>>=◌ : Run C E A → (A → Run C E B) → Run C E B
  first >>= next = go_on first.calls first.result next

  go_on-calls :
      (cs : List C) (r : Result E A) (next : A → Run C E B) (c : C)
      → In c (go_on cs r next).calls
      → In c cs ⊎ ((a : A) × (r ≡ ok a) × In c (next a).calls)
  go_on-calls cs (err e) next c i = inl i
  go_on-calls cs (ok a) next c i = elim (In-++ c cs (next a).calls i) [
    | inl j ↦ inl j
    | inr j ↦ inr (a, refl, j)
  ]

  -- A call of a sequence belongs to its first part, or to the rest after a result of the first.
  pub >>=-calls :
      (first : Run C E A) (next : A → Run C E B) (c : C)
      → In c (first >>= next).calls
      → In c first.calls ⊎ ((a : A) × (first.result ≡ ok a) × In c (next a).calls)
  >>=-calls first next c i = go_on-calls first.calls first.result next c i

infixl 5 ◌>>◌
abbrev pub ◌>>◌ : {C E B : Type 0} → Run C E (Unit {0}) → Run C E B → Run C E B
check >> next = check >>= λ done. next

pub stop_if-calls :
    {C E B : Type 0} (b : Bool) (e : E) (next : Unit {0} → Run C E B) (c : C)
    → In c (◌>>=◌ {A = Unit {0}} (stop_if b e) next).calls
    → (b ≡ false) × In c (next tt).calls
stop_if-calls true e next c i = absurd i
stop_if-calls false e next c i = (refl, i)

pub just-calls :
    {C E A B : Type 0} (r : Result E A) (next : A → Run C E B) (c : C)
    → In c (◌>>=◌ (just r) next).calls
    → (a : A) × (r ≡ ok a) × In c (next a).calls
just-calls (err e) next c i = absurd i
just-calls (ok a) next c i = (a, refl, i)
