-- ===== src/ControlPlane/Rotation/Stages.antt =====
-- What each stage says of the certificates that are trusted.
use cluster_api_provider_tar.Base.{
  ◌≡◌, refl, ◌≢◌, ◌↔◌, ◌⊎◌, true, Option, none, some, List, [], ◌∷◌, arith, comparable_nat,
  comparable_text, comparable_text, eq_iff, All, In, String,
}
use cluster_api_provider_tar.ControlPlane.Rotation.{
  CertificateAndKey, Certificate, CaTrustStage, stable, dual_trust, cutover, rotated, unknown,
  accepted_certificates_known, same_certificate, contains_crt, contains_accepted_certificate,
  ca_stage, observe_stage, observe_stage_without_aggregator, ObservedCa, worker_ca_stage,
  CertBundle,
}

-- The certificate is among the accepted ones.
abbrev pub Accepts : List (Option Certificate) → String → Type 0
Accepts accepted crt = In (some (record { crt = crt })) accepted

-- Every accepted certificate is the active or the pending one.
abbrev pub OnlyKnown : List (Option Certificate) → String → String → Type 0
OnlyKnown accepted active pending =
    All (λ c. (c ≡ some (record { crt = active })) ⊎ (c ≡ some (record { crt = pending }))) accepted

-- A stage as a statement on the issuing and the accepted certificates.
abbrev pub AtStage : String → List (Option Certificate) → String → String → CaTrustStage → Type 0
AtStage issuing accepted active pending stable = (issuing ≡ active) × ¬ Accepts accepted pending
AtStage issuing accepted active pending dual_trust = (issuing ≡ active) × Accepts accepted pending
AtStage issuing accepted active pending cutover = (issuing ≡ pending) × Accepts accepted active
AtStage issuing accepted active pending rotated = (issuing ≡ pending) × ¬ Accepts accepted active
AtStage issuing accepted active pending unknown = ⊥

contains_crt_iff :
    (accepted : List (Option Certificate)) (crt : String)
    → (contains_crt accepted crt ≡ true) ↔ Accepts accepted crt
unfolding contains_crt
contains_crt_iff [] crt = (λ h. cc, λ m. absurd m)
contains_crt_iff (none ∷ accepted) crt = ground (arith, contains_crt_iff accepted crt)
contains_crt_iff (some c ∷ accepted) crt =
    ground (arith, eq_iff c.crt crt, contains_crt_iff accepted crt)

known_iff :
    (accepted : List (Option Certificate)) (active pending : CertificateAndKey)
    → (accepted_certificates_known accepted (some active) (some pending) ≡ true)
      ↔ OnlyKnown accepted active.crt pending.crt
unfolding accepted_certificates_known
known_iff [] active pending = (λ h. tt, λ k. refl)
known_iff (none ∷ accepted) active pending = ground (arith, known_iff accepted active pending)
known_iff (some c ∷ accepted) active pending =
    ground
      (arith, eq_iff c.crt active.crt, eq_iff c.crt pending.crt, known_iff accepted active pending)

-- With an active and a different pending certificate, a CA is at one of the four known stages
-- exactly when every accepted certificate is one of the two and the issuing and accepted ones are
-- as that stage says.
pub ca_stage_iff :
    (issuing active pending : CertificateAndKey) (accepted : List (Option Certificate))
    (stage : CaTrustStage)
    → active.crt ≢ pending.crt
    → stage ≢ unknown
    → (ca_stage (some issuing) accepted (some active) (some pending) ≡ stage) ↔ (
        OnlyKnown accepted active.crt pending.crt
        × AtStage issuing.crt accepted active.crt pending.crt stage)
unfolding ca_stage same_certificate contains_accepted_certificate
ca_stage_iff issuing active pending accepted stable differ known = ground (
  arith,
  eq_iff issuing.crt active.crt,
  eq_iff issuing.crt pending.crt,
  known_iff accepted active pending,
  contains_crt_iff accepted active.crt,
  contains_crt_iff accepted pending.crt,
)
ca_stage_iff issuing active pending accepted dual_trust differ known = ground (
  arith,
  eq_iff issuing.crt active.crt,
  eq_iff issuing.crt pending.crt,
  known_iff accepted active pending,
  contains_crt_iff accepted active.crt,
  contains_crt_iff accepted pending.crt,
)
ca_stage_iff issuing active pending accepted cutover differ known = ground (
  arith,
  eq_iff issuing.crt active.crt,
  eq_iff issuing.crt pending.crt,
  known_iff accepted active pending,
  contains_crt_iff accepted active.crt,
  contains_crt_iff accepted pending.crt,
)
ca_stage_iff issuing active pending accepted rotated differ known = ground (
  arith,
  eq_iff issuing.crt active.crt,
  eq_iff issuing.crt pending.crt,
  known_iff accepted active pending,
  contains_crt_iff accepted active.crt,
  contains_crt_iff accepted pending.crt,
)
ca_stage_iff issuing active pending accepted unknown differ known = absurd (known refl)

-- A control-plane node is at a known stage exactly when all three CAs are at that stage.
pub observe_stage_iff :
    (machine api aggregator : ObservedCa) (active pending : CertBundle) (stage : CaTrustStage)
    → stage ≢ unknown
    → (observe_stage machine api aggregator active pending ≡ stage) ↔ (
        (ca_stage machine.issuing machine.accepted active.machine pending.machine ≡ stage)
        × (ca_stage api.issuing api.accepted active.kubernetes_api pending.kubernetes_api ≡ stage)
        × (ca_stage aggregator.issuing aggregator.accepted active.kubernetes_aggregator
              pending.kubernetes_aggregator
            ≡ stage))
unfolding observe_stage
observe_stage_iff machine api aggregator active pending stage known = ground arith

abbrev pub WorkerAccepts : List (Option Certificate) → String → String → CaTrustStage → Type 0
WorkerAccepts accepted active pending stable = Accepts accepted active × ¬ Accepts accepted pending
WorkerAccepts accepted active pending rotated = Accepts accepted pending × ¬ Accepts accepted active
WorkerAccepts accepted active pending _ = Accepts accepted active × Accepts accepted pending

-- A worker at a known stage has its machine CA at that stage, and accepts of the Kubernetes API CAs
-- both exactly in dual trust and cutover, the active one alone exactly when stable, and the pending
-- one alone exactly when rotated.
pub worker_stage_iff :
    (machine : ObservedCa) (api_accepted : List (Option Certificate)) (active pending : CertBundle)
    (active_api pending_api : CertificateAndKey) (stage : CaTrustStage)
    → stage ≢ unknown
    → active.kubernetes_api ≡ some active_api
    → pending.kubernetes_api ≡ some pending_api
    → (observe_stage_without_aggregator machine api_accepted active pending ≡ stage) ↔ (
        (ca_stage machine.issuing machine.accepted active.machine pending.machine ≡ stage)
        × OnlyKnown api_accepted active_api.crt pending_api.crt
        × WorkerAccepts api_accepted active_api.crt pending_api.crt stage)
unfolding observe_stage_without_aggregator worker_ca_stage contains_accepted_certificate
worker_stage_iff machine api_accepted active pending active_api pending_api stable known ha hp =
    ground (
      arith,
      known_iff api_accepted active_api pending_api,
      contains_crt_iff api_accepted active_api.crt,
      contains_crt_iff api_accepted pending_api.crt,
    )
worker_stage_iff machine api_accepted active pending active_api pending_api dual_trust known ha hp =
    ground (
      arith,
      known_iff api_accepted active_api pending_api,
      contains_crt_iff api_accepted active_api.crt,
      contains_crt_iff api_accepted pending_api.crt,
    )
worker_stage_iff machine api_accepted active pending active_api pending_api cutover known ha hp =
    ground (
      arith,
      known_iff api_accepted active_api pending_api,
      contains_crt_iff api_accepted active_api.crt,
      contains_crt_iff api_accepted pending_api.crt,
    )
worker_stage_iff machine api_accepted active pending active_api pending_api rotated known ha hp =
    ground (
      arith,
      known_iff api_accepted active_api pending_api,
      contains_crt_iff api_accepted active_api.crt,
      contains_crt_iff api_accepted pending_api.crt,
    )
worker_stage_iff machine api_accepted active pending active_api pending_api unknown known ha hp =
    absurd (known refl)
