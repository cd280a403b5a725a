-- ===== src/Lib.antt =====
-- Correctness of the core of cluster-api-provider-tart, a Cluster API provider for bare-metal
-- machines that run Talos Linux. A TartHost is a physical host; a TartMachine claims one, boots
-- and configures it, and releases it when it is deleted. A claim is a reference in the host's spec
-- that is written with optimistic concurrency; a release moves the reference into a record of the
-- last consumer, and the host waits there until an operator approves its reuse. The control plane
-- provider scales etcd and rotates the cluster's CAs.
--
-- Api models the data: Api/Meta.antt the Kubernetes types and the identifiers of domain/host,
-- domain/cluster and domain/network, Api/Host.antt and Api/Machine.antt the types of
-- api/infrastructure/v1alpha1, Api/Secret.antt the Secrets. Numbers are natural numbers, a pointer
-- that may be nil is an Option, an enumerated string is a data type with a constructor for every
-- other text, and a UUID is its 128-bit value, with the nil UUID as 0.
--
-- Host models usecase/host: Eligibility.antt (classify, reprovision_approved) is eligibility.go,
-- Selector.antt selector.go, ClaimDecision.antt claimdecision.go, Selection.antt selection.go,
-- Identity.antt identity.go, FailureDomains.antt failure_domain.go. apimachinery's label
-- selectors, SHA-256, strings.EqualFold and the printed form of a UUID with its parser are
-- parameters.
--
-- Repository models adapter/kubernetes/tarthostrepository.go. Server.antt states what is assumed
-- of the API server and its client as an interface: an update is written only over the version
-- that it carries and concerns its object only, a version is given to one content, an update whose
-- answer is lost may have been written or not, and a read may be old. Other clients may do
-- anything between two requests (settle). Loop.antt is the loop that ClaimHostWithRequest and
-- RetainHost share, with claimAttempts as its number of rounds; TartHostRepository.antt has the
-- two operations. The bound is the source's own: the last round returns on a conflict too, so the
-- rounds are never used up.
--
-- Repository/Ownership.antt is the abstract view of a host over time: the steps that its object
-- takes by the decisions on claims and releases, and any change that leaves the claim alone.
-- Ownership/Refinement.antt relates the operations on the server to these steps.
--
-- Machine models domain/machine and usecase/machine: Binding.antt is the search for a machine's
-- host, Deletion.antt the tests on drain and shutdown that the deletion of a machine goes through.
-- Times are numbers and the zero time is none; the constants of Cluster API are a parameter.
--
-- Machine/Stop.antt and Machine/Release.antt model controller/tartmachine/deletion.go: whether a
-- host has stopped and how its shutdown is asked for, and one reconciliation of a machine under
-- deletion. What the reconciliation reads of the API server, the Talos API and the power backends
-- is an argument; its only write to a host is RetainHost, which runs on the server of Repository.
-- The loop of the controller is a sequence of such reconciliations with any readings.
--
-- Machine/Release/Reporting.antt is report of controller/tartmachine/reconciler.go: the Ready
-- condition that a reconciliation leaves, through SetCondition of controller/conditions.go
-- (Controller/Conditions.antt). meta.SetStatusCondition of apimachinery is a parameter with its
-- documented behaviour, that the time of the last transition moves only with the status.
--
-- Bootstrap/Patches.antt models domain/bootstrap/composition.go, the order of configuration
-- patches. Bootstrap/Disk.antt models domain/bootstrap/diskselector.go: the selectors that are
-- offered for a disk, with the expression that Talos evaluates as a text and its meaning as a
-- function, as the source keeps them side by side.
--
-- Update.antt models domain/update and usecase/update: how a classified change of the
-- configuration is applied.
--
-- ControlPlane models domain/controlplane: Quorum.antt quorum.go over the integers, Rotation.antt
-- rotation.go with certificates as texts, Bundle.antt bundle.go. The validation of DNS-1123 names
-- is a parameter.
--
-- ControlPlane/Etcd.antt, Etcd/Removal.antt and Etcd/ScaleDown.antt model
-- controller/tartcontrolplane/etcd.go: which machine a scale-down deletes, and how the etcd member
-- of a deleted machine is removed before its delete hook is lifted. A reconciliation is a run: the
-- calls that change something, in order, with its result. The answers of the API server and of the
-- Talos nodes are functions that it takes; uint64 IDs are printed and parsed as strconv does
-- (Base/Parse.antt). Machines are read from a list, so no pointer to one is nil.
--
-- ControlPlane/Machines.antt and its children model controller/tartcontrolplane/machines.go, with
-- two readers of the spec in reconciler.go: Machines.antt names, failure domains, owner and
-- contract references of the machines, Machines/TemplateSync.antt how a changed template reaches
-- the objects made from it, Machines/Providers.antt the TartMachine and the TartBootstrapConfig of
-- a machine, and Machines/Ensure.antt the loop over the ordinals (ensureMachines), which ends in
-- the scale-down of Etcd/ScaleDown.antt. A run gives the calls that change something; what the API
-- server answers is an argument. The digest of a template (SHA-256 over JSON) and apimachinery's
-- validation of names are parameters.
--
-- Controller/Ownership.antt is controller/ownership.go.
--
-- Recovery models domain/recovery/identity.go and usecase/recovery: Identity.antt is the check
-- before a reset, RecoverySecret.antt the Secret of a Talos CA (secret.go), Retention.antt its
-- retention (retention.go), Collector.antt the reconciler of controller/talosrecovery. The printed
-- form of a UUID with its parser, the fingerprint of a certificate, the lower-case form of a text
-- and the DNS-1123 test are parameters.
--
-- Base holds what they share: Boolean tests and lists (Tests, Lists), texts (Text), results of
-- fallible code (Result), the order of byte strings (Order), sorting (Sort), integers (Int),
-- printed and parsed numbers (Format, Parse) and runs of a controller (Run). Files named Scenarios
-- run the definitions on concrete objects.
--
-- Not modelled: the first boot, the rotation of CAs and the upgrades in
-- controller/tartcontrolplane, the other reconcilers of controller/, the netboot server, the
-- clients of Talos and of the power backends, the generated deep copies and cmd/. An error is the
-- constructor for the sentinel that it wraps, without its text.
pub mod Base
pub mod Api
pub mod Host
pub mod Machine
pub mod Repository
pub mod Bootstrap
pub mod ControlPlane
pub mod Update
pub mod Recovery
pub mod Controller
