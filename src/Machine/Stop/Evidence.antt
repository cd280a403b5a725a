-- ===== src/Machine/Stop/Evidence.antt =====
-- What it takes for a host to count as stopped.
use cluster_api_provider_tar.Base.Result.{ok}
use cluster_api_provider_tar.Base.{
  String, ◌≡◌, refl, ◌≢◌, ◌⊎◌, true, false, ◌&&◌, Option, none, some, arith, eq_iff, comparable_nat,
  comparable_text, comparable_list, is_blank, inl, inr,
}
use cluster_api_provider_tar.Api.Host.{
  TartHost, ShutdownConfirmation, HostInventory, PowerBackend, redfish, wake_on_lan,
  intel_manageability, manual, other_backend,
}
use cluster_api_provider_tar.Api.Machine.{TartMachine}
use cluster_api_provider_tar.Machine.Stop.{
  Probe, succeeds, host_talos_endpoint, shutdown_confirmed, confirmed_by, boot_confirmed, by_talos,
  observe_host_stopped, by_maintenance, observe_by, by_confirmation, by_power_state,
  is_shutdown_confirmation_required, power_off,
}

-- The operator's confirmation is about this machine and host, and about the boot on record.
pub record IsConfirmed (host : TartHost) (machine : TartMachine) : Type 0 where
  pub confirmation : ShutdownConfirmation
  pub given : host.spec.shutdown_confirmation ≡ some confirmation
  pub same_consumer : confirmation.consumer_uid ≡ machine.uid
  pub same_host : confirmation.host_id ≡ host.spec.host_id
  pub identified : confirmation.host_id ≢ 0
  pub same_boot :
      (inventory : HostInventory)
      → host.status.inventory ≡ some inventory
      → is_blank inventory.boot_id ≡ false
      → confirmation.boot_id ≡ inventory.boot_id

pub shutdown_confirmed-IsConfirmed :
    (host : TartHost) (machine : TartMachine)
    → shutdown_confirmed host machine ≡ true
    → IsConfirmed host machine
unfolding shutdown_confirmed confirmed_by boot_confirmed
shutdown_confirmed-IsConfirmed host machine h = go host.spec.shutdown_confirmation refl
  where
    go :
        (c : Option ShutdownConfirmation)
        → host.spec.shutdown_confirmation ≡ c
        → IsConfirmed host machine
    go none e = absurd (ground (arith, e))
    go (some c) e = record {
      confirmation = c;
      given = e;
      same_consumer = ground (arith, e, eq_iff c.consumer_uid machine.uid);
      same_host = ground (arith, e);
      identified = ground (arith, e);
      same_boot = λ inventory i b. ground (arith, e, i, b, eq_iff c.boot_id inventory.boot_id);
    }

-- No interface of Talos has answered, and the operator has confirmed the stop.
pub record IsSilent (probe : Probe) (host : TartHost) (machine : TartMachine)
    (configuration : String) : Type 0 where
  pub needs_confirmation :
      (host.spec.power.backend ≡ wake_on_lan) ⊎ (host.spec.power.backend ≡ manual)
  pub confirmed : IsConfirmed host machine
  pub reachable : host_talos_endpoint host ≢ ""
  pub authenticated_silent :
      (is_blank configuration ≡ true)
      ⊎ ((succeeds probe.dial_authenticated && succeeds probe.version) ≡ false)
  pub maintenance_silent : (succeeds probe.dial_maintenance && succeeds probe.inventory) ≡ false

by_talos-IsSilent :
    (probe : Probe) (host : TartHost) (machine : TartMachine) (configuration : String)
    → by_talos probe host machine configuration ≡ ok true
    → ((host.spec.power.backend ≡ wake_on_lan) ⊎ (host.spec.power.backend ≡ manual)
        → IsSilent probe host machine configuration)
      × ((host.spec.power.backend ≡ wake_on_lan) ⊎ (host.spec.power.backend ≡ manual))
unfolding by_talos by_maintenance by_confirmation is_shutdown_confirmation_required
by_talos-IsSilent probe host machine configuration h = (
  (λ b. record {
    needs_confirmation = b;
    confirmed = shutdown_confirmed-IsConfirmed host machine (ground arith);
    reachable = ground (arith, eq_iff (host_talos_endpoint host) "");
    authenticated_silent = ground arith;
    maintenance_silent = ground arith;
  }),
  ground arith,
)

-- A host counts as stopped only when its backend reports the power to be off, or, where no backend
-- can tell, when it has an endpoint at which no Talos API answers and the operator has confirmed
-- the stop for this machine, host and boot.
pub observe_host_stopped_evidence :
    (probe : Probe) (host : TartHost) (machine : TartMachine) (configuration : String)
    → observe_host_stopped probe host machine configuration ≡ ok true
    → ((host.spec.power.backend ≡ redfish) × (probe.redfish_state ≡ ok power_off))
      ⊎ ((host.spec.power.backend ≡ intel_manageability)
          × (probe.intel_manageability_state ≡ ok power_off))
      ⊎ IsSilent probe host machine configuration
unfolding observe_host_stopped observe_by by_power_state
observe_host_stopped_evidence probe host machine configuration h = go host.spec.power.backend refl
  where
    go :
        (b : PowerBackend)
        → host.spec.power.backend ≡ b
        → ((host.spec.power.backend ≡ redfish) × (probe.redfish_state ≡ ok power_off))
          ⊎ ((host.spec.power.backend ≡ intel_manageability)
              × (probe.intel_manageability_state ≡ ok power_off))
          ⊎ IsSilent probe host machine configuration
    go redfish e = inl (e, ground (arith, e))
    go intel_manageability e = inr (inl (e, ground (arith, e)))
    go wake_on_lan e =
        inr
          (inr ((by_talos-IsSilent probe host machine configuration (ground (arith, e))).0 (inl e)))
    go manual e =
        inr
          (inr ((by_talos-IsSilent probe host machine configuration (ground (arith, e))).0 (inr e)))
    go (other_backend n) e = absurd (
        ground
          (arith, e, (by_talos-IsSilent probe host machine configuration (ground (arith, e))).1))
