-- ===== src/Machine/Stop.antt =====
-- controller/tartmachine/deletion.go, `observeHostStopped` and `requestHostShutdown`, with
-- `HostTalosEndpoint` of controller/hosttalos.go. What the Talos API and the power backends answer
-- during one reconciliation is an argument.
pub mod Evidence
use cluster_api_provider_tar.Base.{
  ℕ, zero, suc, String, ◌+◌, ◌-◌, ◌*◌, ◌/◌, ◌%◌, ◌^◌, ◌≤◌, ◌<◌, ◌≡◌, refl, sym, ap, subst, ◌∙◌, ◌≢◌,
  ◌↔◌, ◌⊎◌, inl, inr, Bool, true, false, not, ◌&&◌, ◌||◌, Option, none, some, List, [], ◌∷◌, ◌++◌,
  map, arith, eq_iff, eq_refl, ltb, leb, if◌then◌else◌, Comparable, ◌==◌, ◌!=◌, comparable_nat,
  comparable_text, comparable_list, list_beq_iff, ==_refl, Bool-cases, Option-cases, ltb→lt, leb→le,
  is_some, length, any, keep, count_if, All, In, trim_space, is_blank, codes, is_blank-empty,
  is_blank_nonempty,
}
use cluster_api_provider_tar.Base.Result.{Result, ok, err}
use cluster_api_provider_tar.Api.Meta.{MacAddress, comparable_mac, host_id_is_zero}
use cluster_api_provider_tar.Api.Host.{
  TartHost, TartHostSpec, HostInventory, ShutdownConfirmation, PowerBackend, redfish, wake_on_lan,
  intel_manageability, manual, MachineAddress, AddressType, internal_ip, external_ip, host_name,
}
use cluster_api_provider_tar.Api.Machine.{TartMachine}

pub data StopError : Type 0 where
  host_endpoint_unavailable host_identity_mismatch shutdown_state_unverifiable : StopError
  call_failed : String → StopError

-- domain/power/power.go.
pub data PowerState : Type 0 where
  power_on power_off power_unknown : PowerState

abbrev pub is_off : PowerState → Bool
is_off power_off = true
is_off _ = false

-- The answers of a host's interfaces; an action that succeeds answers `ok tt`.
pub record Probe : Type 0 where
  pub redfish_state : Result String PowerState
  pub intel_manageability_state : Result String PowerState
  pub dial_authenticated : Result String (Unit {0})
  pub version : Result String (Unit {0})
  pub authenticated_shutdown : Result String (Unit {0})
  pub dial_maintenance : Result String (Unit {0})
  pub inventory : Result String (List MacAddress)
  pub maintenance_shutdown : Result String (Unit {0})
  pub power_off_host : Result String (Unit {0})

abbrev pub succeeds : {A : Type 0} → Result String A → Bool
succeeds (ok a) = true
succeeds (err e) = false

-- `Inventory.HasMAC` of adapter/talos/client.go.
unfoldable pub has_mac : List MacAddress → MacAddress → Bool
has_mac addresses expected =
    if not expected.is_set then false else any (λ m. m == expected) addresses

abbrev type_number : AddressType → ℕ
type_number internal_ip = 0
type_number external_ip = 1
type_number host_name = 2
type_number _ = 3

-- The inner loop of `HostTalosEndpoint`.
abbrev address_of : List MachineAddress → AddressType → String
address_of [] kind = ""
address_of (a ∷ addresses) kind =
    let rest = address_of addresses kind in
    if type_number a.kind == type_number kind && not (is_blank a.address)
    then trim_space a.address
    else rest

abbrev or_else : String → String → String
or_else a b = if a == "" then b else a

-- `HostTalosEndpoint`.
unfoldable pub host_talos_endpoint : TartHost → String
host_talos_endpoint host = or_else host.spec.talos_api_address (
    or_else (address_of host.status.addresses internal_ip) (
      or_else (address_of host.status.addresses external_ip)
        (address_of host.status.addresses host_name)))

-- `hasIndependentPowerControl`.
unfoldable pub has_independent_power_control : PowerBackend → Bool
has_independent_power_control redfish = true
has_independent_power_control intel_manageability = true
has_independent_power_control _ = false

-- `isShutdownConfirmationRequired`.
unfoldable pub is_shutdown_confirmation_required : PowerBackend → Bool
is_shutdown_confirmation_required wake_on_lan = true
is_shutdown_confirmation_required manual = true
is_shutdown_confirmation_required _ = false

boot_confirmed : ShutdownConfirmation → Option HostInventory → Bool
boot_confirmed confirmation none = true
boot_confirmed confirmation (some inventory) =
    if is_blank inventory.boot_id
    then true
    else not (is_blank confirmation.boot_id) && confirmation.boot_id == inventory.boot_id

confirmed_by : Option ShutdownConfirmation → TartHost → TartMachine → Bool
unfolding boot_confirmed
confirmed_by none host machine = false
confirmed_by (some confirmation) host machine =
    if is_blank confirmation.consumer_uid || confirmation.consumer_uid != machine.uid
    then false
    else if host_id_is_zero confirmation.host_id || confirmation.host_id != host.spec.host_id
    then false
    else boot_confirmed confirmation host.status.inventory

-- `shutdownConfirmed`.
unfoldable pub shutdown_confirmed : TartHost → TartMachine → Bool
unfolding confirmed_by
shutdown_confirmed host machine = confirmed_by host.spec.shutdown_confirmation host machine

-- The end of `observeHostStopped`, where no Talos API has answered.
by_confirmation : TartHost → TartMachine → Result StopError Bool
by_confirmation selected machine =
    if is_shutdown_confirmation_required selected.spec.power.backend
      && shutdown_confirmed selected machine
    then ok true
    else err shutdown_state_unverifiable

by_maintenance :
    TartHost
    → TartMachine
    → Result String (Unit {0})
    → Result String (List MacAddress)
    → Result StopError Bool
unfolding by_confirmation
by_maintenance selected machine (err e) inventory = by_confirmation selected machine
by_maintenance selected machine (ok _) (err e) = by_confirmation selected machine
by_maintenance selected machine (ok _) (ok addresses) =
    if not (has_mac addresses selected.spec.mac_address)
    then err host_identity_mismatch
    else ok false

-- The part of `observeHostStopped` after the switch on the backend.
by_talos : Probe → TartHost → TartMachine → String → Result StopError Bool
unfolding by_maintenance
by_talos probe selected machine configuration =
    if host_talos_endpoint selected == ""
    then err host_endpoint_unavailable
    else if not (is_blank configuration)
        && succeeds probe.dial_authenticated
        && succeeds probe.version
    then ok false
    else by_maintenance selected machine probe.dial_maintenance probe.inventory

by_power_state : Result String PowerState → Result StopError Bool
by_power_state (err e) = err (call_failed e)
by_power_state (ok state) = ok (is_off state)

observe_by : PowerBackend → Probe → TartHost → TartMachine → String → Result StopError Bool
unfolding by_power_state by_talos
observe_by redfish probe selected machine configuration = by_power_state probe.redfish_state
observe_by intel_manageability probe selected machine configuration =
    by_power_state probe.intel_manageability_state
observe_by _ probe selected machine configuration = by_talos probe selected machine configuration

-- `observeHostStopped`.
unfoldable pub observe_host_stopped :
    Probe → TartHost → TartMachine → String → Result StopError Bool
unfolding observe_by
observe_host_stopped probe selected machine configuration =
    observe_by selected.spec.power.backend probe selected machine configuration

-- The fallback where the maintenance API refuses to shut down.
power_off_instead : Probe → TartHost → String → Result StopError Bool
power_off_instead probe selected e =
    if has_independent_power_control selected.spec.power.backend && succeeds probe.power_off_host
    then ok true
    else err (call_failed e)

shutdown_sent : Probe → TartHost → Result String (Unit {0}) → Result StopError Bool
unfolding power_off_instead
shutdown_sent probe selected (ok _) = ok true
shutdown_sent probe selected (err e) = power_off_instead probe selected e

shutdown_by_maintenance :
    Probe
    → TartHost
    → Result String (Unit {0})
    → Result String (List MacAddress)
    → Result StopError Bool
unfolding shutdown_sent
shutdown_by_maintenance probe selected (err e) inventory = ok false
shutdown_by_maintenance probe selected (ok _) (err e) = ok false
shutdown_by_maintenance probe selected (ok _) (ok addresses) =
    if not (has_mac addresses selected.spec.mac_address)
    then err host_identity_mismatch
    else shutdown_sent probe selected probe.maintenance_shutdown

-- `requestHostShutdown`: whether a shutdown was requested.
unfoldable pub request_host_shutdown : Probe → TartHost → String → Result StopError Bool
unfolding shutdown_by_maintenance
request_host_shutdown probe selected configuration =
    if host_talos_endpoint selected == ""
    then ok false
    else if not (is_blank configuration)
        && succeeds probe.dial_authenticated
        && succeeds probe.authenticated_shutdown
    then ok true
    else shutdown_by_maintenance probe selected probe.dial_maintenance probe.inventory
