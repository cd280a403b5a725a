-- ===== src/Base/Calls.antt =====
-- What all calls of a run have in common, from what those of its parts have.
use cluster_api_provider_tar.Base.{
  ◌≡◌, refl, sym, subst, inl, inr, Bool, true, false, if◌then◌else◌, In,
}
use cluster_api_provider_tar.Base.Result.{Result, ok, err}
use cluster_api_provider_tar.Base.Run.{Run, just, call, stop_if, ◌>>=◌, ◌>>◌, >>=-calls}

-- What holds of all calls of a run.
pub record Calls {C E A : Type 0} (P : C → Type 0) (run : Run C E A) : Type 0 where
  pub all : (c : C) → In c run.calls → P c

-- It holds of the calls of a sequence, if of those of both parts.
pub both :
    {C E A B : Type 0} {P : C → Type 0} {first : Run C E A} {next : A → Run C E B}
    → Calls P first
    → ((a : A) → first.result ≡ ok a → Calls P (next a))
    → Calls P (first >>= next)
both {first = first} {next = next} p q = record {
  all = λ c i. elim (>>=-calls first next c i) [
    | inl j ↦ p.all c j
    | inr (a, e, j) ↦ (q a e).all c j
  ];
}

-- The same for a check, of which only its success matters.
pub after :
    {C E B : Type 0} {P : C → Type 0} {first : Run C E (Unit {0})} {next : Run C E B}
    → Calls P first
    → (first.result ≡ ok tt → Calls P next)
    → Calls P (first >> next)
after p q = both p (λ u e. q e)

pub none_just : {C E A : Type 0} {P : C → Type 0} (r : Result E A) → Calls P (just {C = C} r)
none_just r = record { all = λ c i. absurd i }

pub none_stop : {C E : Type 0} {P : C → Type 0} (b : Bool) (e : E) → Calls P (stop_if {C = C} b e)
none_stop true e = record { all = λ c i. absurd i }
none_stop false e = record { all = λ c i. absurd i }

pub after_result :
    {C E A B : Type 0} {P : C → Type 0} (r : Result E A) (next : A → Run C E B)
    → ((a : A) → r ≡ ok a → Calls P (next a))
    → Calls P (just r >>= next)
after_result r next p = both (none_just r) p

pub after_stop :
    {C E B : Type 0} {P : C → Type 0} (b : Bool) (e : E) (next : Run C E B)
    → (b ≡ false → Calls P next)
    → Calls P (stop_if b e >> next)
after_stop true e next p = none_just (err e)
after_stop false e next p = after (none_stop false e) (λ h. p refl)

pub if_either :
    {C E A : Type 0} {P : C → Type 0} (b : Bool) (x y : Run C E A)
    → (b ≡ true → Calls P x)
    → (b ≡ false → Calls P y)
    → Calls P (if b then x else y)
if_either true x y p q = p refl
if_either false x y p q = q refl

pub weaken :
    {C E A : Type 0} {P Q : C → Type 0} {r : Run C E A}
    → ((c : C) → P c → Q c)
    → Calls P r
    → Calls Q r
weaken f p = record { all = λ c i. f c (p.all c i) }

pub one_call : {C E A : Type 0} {P : C → Type 0} (c : C) (r : Result E A) → P c → Calls P (call c r)
one_call {P = P} c r p = record {
  all = λ d i. elim i [ inl e ↦ subst P (sym e) p | inr j ↦ absurd j ];
}
