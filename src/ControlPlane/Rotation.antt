-- ===== src/ControlPlane/Rotation.antt =====
-- domain/controlplane/rotation.go. The certificates are those of siderolabs/crypto: texts in
-- PEM, behind pointers that may be nil.
pub mod Stages
use cluster_api_provider_tar.Base.{
  ℕ, zero, suc, String, ◌+◌, ◌-◌, ◌*◌, ◌/◌, ◌%◌, ◌^◌, ◌≤◌, ◌<◌, ◌≡◌, refl, sym, ap, subst, ◌∙◌, ◌≢◌,
  ◌↔◌, ◌⊎◌, inl, inr, Bool, true, false, not, ◌&&◌, ◌||◌, Option, none, some, List, [], ◌∷◌, ◌++◌,
  map, arith, eq_iff, eq_refl, ltb, leb, if◌then◌else◌, Comparable, ◌==◌, ◌!=◌, comparable_nat,
  comparable_text, comparable_text, eq_iff, ==_refl, Bool-cases, Option-cases, ltb→lt, leb→le,
  is_some, length, any, keep, count_if, All, In, trim_space, is_blank, codes, is_blank-empty,
  is_blank_nonempty,
}

pub record CertificateAndKey : Type 0 where
  pub crt : String
  pub key : String

pub record Certificate : Type 0 where
  pub crt : String

-- `CATrustStage`.
pub data CaTrustStage : Type 0 where
  stable dual_trust cutover rotated unknown : CaTrustStage

-- `CertBundle`.
pub record CertBundle : Type 0 where
  pub machine : Option CertificateAndKey
  pub kubernetes_api : Option CertificateAndKey
  pub kubernetes_aggregator : Option CertificateAndKey

abbrev pub is_certificate : Option CertificateAndKey → String → Bool
is_certificate none crt = false
is_certificate (some c) crt = crt == c.crt

abbrev known_certificate :
    Option CertificateAndKey → Option CertificateAndKey → Option Certificate → Bool
known_certificate active pending none = false
known_certificate active pending (some c) =
    is_certificate active c.crt || is_certificate pending c.crt

-- `acceptedCertificatesKnown`.
pub accepted_certificates_known :
    List (Option Certificate) → Option CertificateAndKey → Option CertificateAndKey → Bool
accepted_certificates_known [] active pending = true
accepted_certificates_known (c ∷ accepted) active pending =
    known_certificate active pending c && accepted_certificates_known accepted active pending

-- `sameCertificate`.
pub same_certificate : Option CertificateAndKey → Option CertificateAndKey → Bool
same_certificate none expected = false
same_certificate (some observed) none = false
same_certificate (some observed) (some expected) = observed.crt == expected.crt

abbrev has_crt : String → Option Certificate → Bool
has_crt crt none = false
has_crt crt (some c) = c.crt == crt

pub contains_crt : List (Option Certificate) → String → Bool
contains_crt [] crt = false
contains_crt (c ∷ accepted) crt = has_crt crt c || contains_crt accepted crt

-- `containsAcceptedCertificate`.
pub contains_accepted_certificate : List (Option Certificate) → Option CertificateAndKey → Bool
unfolding contains_crt
contains_accepted_certificate accepted none = false
contains_accepted_certificate accepted (some expected) = contains_crt accepted expected.crt

-- `caStage`.
pub ca_stage :
    Option CertificateAndKey
    → List (Option Certificate)
    → Option CertificateAndKey
    → Option CertificateAndKey
    → CaTrustStage
ca_stage issuing accepted active pending =
    let issuing_active = same_certificate issuing active in
    let issuing_pending = same_certificate issuing pending in
    let pending_accepted = contains_accepted_certificate accepted pending in
    let active_accepted = contains_accepted_certificate accepted active in
    if not (accepted_certificates_known accepted active pending)
    then unknown
    else if issuing_active && not pending_accepted
    then stable
    else if issuing_active && pending_accepted
    then dual_trust
    else if issuing_pending && active_accepted
    then cutover
    else if issuing_pending && not active_accepted
    then rotated
    else unknown

-- `workerCAStage`.
pub worker_ca_stage :
    List (Option Certificate) → Option CertificateAndKey → Option CertificateAndKey → CaTrustStage
worker_ca_stage accepted active pending =
    let active_accepted = contains_accepted_certificate accepted active in
    let pending_accepted = contains_accepted_certificate accepted pending in
    if not (accepted_certificates_known accepted active pending)
    then unknown
    else if active_accepted && not pending_accepted
    then stable
    else if active_accepted && pending_accepted
    then dual_trust
    else if pending_accepted && not active_accepted
    then rotated
    else unknown

abbrev stage_number : CaTrustStage → ℕ
stage_number stable = 0
stage_number dual_trust = 1
stage_number cutover = 2
stage_number rotated = 3
stage_number unknown = 4

abbrev same_stage : CaTrustStage → CaTrustStage → Bool
same_stage a b = stage_number a == stage_number b

-- What is observed of one CA: the one that issues and the ones that are accepted.
pub record ObservedCa : Type 0 where
  pub issuing : Option CertificateAndKey
  pub accepted : List (Option Certificate)

-- `ObserveStage`.
pub observe_stage : ObservedCa → ObservedCa → ObservedCa → CertBundle → CertBundle → CaTrustStage
observe_stage machine api aggregator active pending =
    let machine_stage = ca_stage machine.issuing machine.accepted active.machine pending.machine in
    let api_stage =
      ca_stage api.issuing api.accepted active.kubernetes_api pending.kubernetes_api in
    let aggregator_stage =
      ca_stage aggregator.issuing aggregator.accepted active.kubernetes_aggregator
        pending.kubernetes_aggregator in
    if same_stage machine_stage api_stage && same_stage api_stage aggregator_stage
    then machine_stage
    else unknown

-- A worker has no issuing key of the Kubernetes API CA, so its cutover looks like dual trust.
abbrev read_as_cutover : CaTrustStage → CaTrustStage → CaTrustStage
read_as_cutover cutover dual_trust = cutover
read_as_cutover _ api_stage = api_stage

-- `ObserveStageWithoutAggregator`.
pub observe_stage_without_aggregator :
    ObservedCa → List (Option Certificate) → CertBundle → CertBundle → CaTrustStage
observe_stage_without_aggregator machine api_accepted active pending =
    let machine_stage = ca_stage machine.issuing machine.accepted active.machine pending.machine in
    let api_stage =
      read_as_cutover machine_stage
        (worker_ca_stage api_accepted active.kubernetes_api pending.kubernetes_api) in
    if same_stage machine_stage api_stage then machine_stage else unknown
