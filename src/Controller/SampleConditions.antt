-- ===== src/Controller/SampleConditions.antt =====
-- For the tests: a setter of conditions that keeps the documented behaviour.
use cluster_api_provider_tar.Base.{
  ℕ, String, ◌≡◌, refl, ◌≢◌, inl, inr, Bool, true, false, some, List, [], ◌∷◌, arith, if◌then◌else◌,
  ◌==◌, comparable_nat, comparable_text, comparable_list, ==_refl, Bool-cases,
}
use cluster_api_provider_tar.Api.Meta.{
  Condition, ConditionStatus, condition_true, condition_false, condition_unknown,
  find_status_condition,
}
use cluster_api_provider_tar.Controller.Conditions.{ConditionSetter}

abbrev same_status_text : ConditionStatus → ConditionStatus → Bool
same_status_text condition_true condition_true = true
same_status_text condition_false condition_false = true
same_status_text condition_unknown condition_unknown = true
same_status_text _ _ = false

-- A setter that replaces the first condition of the kind, or adds one at the end.
unfoldable pub replaced : List Condition → ℕ → String → ConditionStatus → String → List Condition
replaced [] now kind status reason =
    record { kind = kind; status = status; reason = reason; last_transition_time = some now } ∷ []
replaced (c ∷ cs) now kind status reason =
    let rest = replaced cs now kind status reason in
    if c.kind == kind
    then record {
      kind = kind;
      status = status;
      reason = reason;
      last_transition_time =
          if same_status_text c.status status then c.last_transition_time else some now;
    }
      ∷ cs
    else c ∷ rest

same_status_text_refl : (s : ConditionStatus) → same_status_text s s ≡ true
same_status_text_refl condition_true = refl
same_status_text_refl condition_false = refl
same_status_text_refl condition_unknown = refl

same_status_text_other : (s t : ConditionStatus) → s ≢ t → same_status_text s t ≡ false
same_status_text_other condition_true condition_true n = absurd (n refl)
same_status_text_other condition_true condition_false n = refl
same_status_text_other condition_true condition_unknown n = refl
same_status_text_other condition_false condition_true n = refl
same_status_text_other condition_false condition_false n = absurd (n refl)
same_status_text_other condition_false condition_unknown n = refl
same_status_text_other condition_unknown condition_true n = refl
same_status_text_other condition_unknown condition_false n = refl
same_status_text_other condition_unknown condition_unknown n = absurd (n refl)

pub replaced_same :
    (cs : List Condition) (now : ℕ) (kind : String) (status : ConditionStatus) (reason : String)
    (old : Condition)
    → find_status_condition cs kind ≡ some old
    → old.status ≡ status
    → find_status_condition (replaced cs now kind status reason) kind
      ≡ some (record {
        kind = kind;
        status = status;
        reason = reason;
        last_transition_time = old.last_transition_time;
      })
unfolding find_status_condition replaced
replaced_same [] now kind status reason old h e = absurd (ground (arith, h))
replaced_same (c ∷ cs) now kind status reason old h e = elim (Bool-cases (c.kind == kind)) [
  | inl b ↦
      let same : c ≡ old = ground (arith, b, h) in
      rw (b, ==_refl kind, same, e, same_status_text_refl status) refl
  | inr b ↦ rw (b, b) (replaced_same cs now kind status reason old (ground (arith, b, h)) e)
]

pub replaced_new :
    (cs : List Condition) (now : ℕ) (kind : String) (status : ConditionStatus) (reason : String)
    → ((old : Condition) → find_status_condition cs kind ≡ some old → old.status ≢ status)
    → find_status_condition (replaced cs now kind status reason) kind
      ≡ some (record {
        kind = kind;
        status = status;
        reason = reason;
        last_transition_time = some now;
      })
unfolding find_status_condition replaced
replaced_new [] now kind status reason n = rw (==_refl kind) refl
replaced_new (c ∷ cs) now kind status reason n = elim (Bool-cases (c.kind == kind)) [
  | inl b ↦
      let other : same_status_text c.status status ≡ false =
        same_status_text_other c.status status (n c (rw b refl)) in
      rw (b, ==_refl kind, other) refl
  | inr b ↦ rw (b, b) (replaced_new cs now kind status reason (λ old e. n old (rw b e)))
]

abbrev pub replacing : ConditionSetter
replacing = record { set = replaced; same_status = replaced_same; new_status = replaced_new }
